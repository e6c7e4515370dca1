-- ===== src/Client/Races.antt =====
-- Threads that advance one watermark at the same time (crates/blockyard-ublk/src/watermark.rs).
use blockyard.Common.{
  ℕ, ◌≡◌, refl, ◌<◌, ◌≤◌, max, ◌↔◌, true, List, [], ◌∷◌, All, arith, map, ap, sym,
}
use blockyard.Common.Highest.{Below, highest, highest-above, highest-Below, highest-least}
use blockyard.Client.Watermark.{
  WriteWatermark, advance_to, is_fresh, Caller, loading, exchanging, returned, load, Turn, loads,
  exchanges, fails, Step, here, there, Run, stop, more,
}

abbrev version_of : Caller → ℕ
version_of (loading v) = v
version_of (exchanging v c) = v
version_of (returned v b) = v

-- What a thread knows: it exchanges only a lower value, and it returns below the watermark.
abbrev Knows : WriteWatermark → Caller → Type 0
Knows w (loading v) = Unit
Knows w (exchanging v c) = c < v
Knows w (returned v b) = v ≤ w

abbrev Returned : Caller → Type 0
Returned (loading v) = ⊥
Returned (exchanging v c) = ⊥
Returned (returned v b) = Unit

-- All calls of `advance_to` have returned.
abbrev pub AllReturned : List Caller → Type 0
AllReturned cs = All Returned cs

load-keeps : (v : ℕ) (w : WriteWatermark) → (version_of (load v w) ≡ v) × Knows w (load v w)
unfolding load
load-keeps v w = ground arith

Turn-keeps :
    (w w' : WriteWatermark) (c c' : Caller)
    → Turn w c w' c'
    → Knows w c
    → (w ≤ w') × (version_of c' ≡ version_of c) × Knows w' c'
unfolding load
Turn-keeps w w' (loading v) c' (loads e) k =
    let (same, knows) = load-keeps v w in (ground arith, rw (sym e) same, rw (sym e) knows)
Turn-keeps w w' (returned v b) c' turn k = elim turn [ ]
Turn-keeps w w' (exchanging v c) c' (exchanges e) k = ground arith
Turn-keeps w w' (exchanging v c) c' fails k = ground arith

Turn-under :
    (t : ℕ) (w w' : WriteWatermark) (c c' : Caller)
    → Turn w c w' c'
    → w ≤ t
    → Below t (version_of c)
    → w' ≤ t
Turn-under t w w' (loading v) c' (loads e) below u = below
Turn-under t w w' (exchanging v c) c' (exchanges e) below u = u
Turn-under t w w' (exchanging v c) c' fails below u = below
Turn-under t w w' (returned v b) c' turn below u = elim turn [ ]

Knows-on : (w w' : WriteWatermark) → w ≤ w' → (c : Caller) → Knows w c → Knows w' c
Knows-on w w' le (loading v) k = tt
Knows-on w w' le (exchanging v c) k = k
Knows-on w w' le (returned v b) k = omega arith

Knows-later :
    (w w' : WriteWatermark) → w ≤ w' → (cs : List Caller) → All (Knows w) cs → All (Knows w') cs
Knows-later w w' le [] k = tt
Knows-later w w' le (c ∷ cs) (k, ks) = (Knows-on w w' le c k, Knows-later w w' le cs ks)

Step-keeps :
    (w w' : WriteWatermark) (cs cs' : List Caller)
    → Step w w' cs cs'
    → All (Knows w) cs
    → (w ≤ w') × (map version_of cs' ≡ map version_of cs) × All (Knows w') cs'
Step-keeps w w' [] cs' step ks = elim step [ ]
Step-keeps w w' (c ∷ cs) [] step ks = elim step [ ]
Step-keeps w w' (c ∷ cs) (c' ∷ ds) (here turn) (k, ks) =
    let (le, same, knows) = Turn-keeps w w' c c' turn k in
    (le, cc, (knows, Knows-later w w' le cs ks))
Step-keeps w w' (c ∷ cs) (d ∷ cs') (there step) (k, ks) =
    let (le, same, knows) = Step-keeps w w' cs cs' step ks in
    (le, cc, (Knows-on w w' le c k, knows))

Step-under :
    (t : ℕ) (w w' : WriteWatermark) (cs cs' : List Caller)
    → Step w w' cs cs'
    → w ≤ t
    → All (Below t) (map version_of cs)
    → w' ≤ t
Step-under t w w' [] cs' step below us = elim step [ ]
Step-under t w w' (c ∷ cs) [] step below us = elim step [ ]
Step-under t w w' (c ∷ cs) (c' ∷ ds) (here turn) below (u, us) = Turn-under t w w' c c' turn below u
Step-under t w w' (c ∷ cs) (d ∷ cs') (there step) below (u, us) =
    Step-under t w w' cs cs' step below us

Run-keeps :
    (w : WriteWatermark) (cs : List Caller) (w' : WriteWatermark) (cs' : List Caller)
    → Run w cs w' cs'
    → All (Knows w) cs
    → (w ≤ w') × (map version_of cs' ≡ map version_of cs) × All (Knows w') cs'
Run-keeps w cs w' cs' stop ks = (omega arith, refl, ks)
Run-keeps w cs w' cs' (more {u = u} {ds = ds} run step) ks =
    let (le, same, knows) = Run-keeps w cs u ds run ks in
    let (le', same', knows') = Step-keeps u w' ds cs' step knows in (omega arith, cc, knows')

Run-under :
    (t : ℕ) (w : WriteWatermark) (cs : List Caller) (w' : WriteWatermark) (cs' : List Caller)
    → Run w cs w' cs'
    → All (Knows w) cs
    → w ≤ t
    → All (Below t) (map version_of cs)
    → w' ≤ t
Run-under t w cs w' cs' stop ks below us = below
Run-under t w cs w' cs' (more {u = u} {ds = ds} run step) ks below us =
    let (le, same, knows) = Run-keeps w cs u ds run ks in
    Step-under t u w' ds cs' step (Run-under t w cs u ds run ks below us) (rw same us)

Returned-Below :
    (w : WriteWatermark) (cs : List Caller)
    → All (Knows w) cs
    → AllReturned cs
    → All (Below w) (map version_of cs)
Returned-Below w [] ks rs = tt
Returned-Below w (loading v ∷ cs) ks (r, rs) = absurd r
Returned-Below w (exchanging v c ∷ cs) ks (r, rs) = absurd r
Returned-Below w (returned v b ∷ cs) (k, ks) (r, rs) = (k, Returned-Below w cs ks rs)

starts :
    (w : WriteWatermark) (vs : List ℕ)
    → All (Knows w) (map loading vs) × (map version_of (map loading vs) ≡ vs)
starts w [] = (tt, refl)
starts w (v ∷ vs) = let (ks, same) = starts w vs in ((tt, ks), ap (v ∷◌) same)

-- However the calls of several threads interleave, once all have returned the watermark is the
-- highest of its first value and the versions of the calls: no advance is lost.
pub Run-highest :
    (w w' : WriteWatermark) (vs : List ℕ) (cs : List Caller)
    → Run w (map loading vs) w' cs
    → AllReturned cs
    → w' ≡ highest w vs
Run-highest w w' vs cs run rs =
    let (ks, same) = starts w vs in
    let (le, kept, knows) = Run-keeps w (map loading vs) w' cs run ks in
    let above =
      Run-under (highest w vs) w (map loading vs) w' cs run ks (highest-above w vs)
        (rw same (highest-Below w vs)) in
    let below =
      highest-least w' w vs le (rw (sym same, sym kept) (Returned-Below w' cs knows rs)) in
    omega arith

-- The watermark never falls while threads advance it, wherever a run of theirs has come to.
pub Run-monotone :
    (w u w' : WriteWatermark) (vs : List ℕ) (cs ds : List Caller)
    → Run w (map loading vs) u cs
    → Run u cs w' ds
    → (w ≤ u) × (u ≤ w')
Run-monotone w u w' vs cs ds first rest =
    let (ks, same) = starts w vs in
    let (le, kept, knows) = Run-keeps w (map loading vs) u cs first ks in
    (le, (Run-keeps u cs w' ds rest knows).0)

-- One call alone leaves the higher of the two values and returns whether it has raised the
-- watermark; an epoch is then fresh exactly if it reaches the call's version and was fresh before.
pub advance_to-max :
    (version epoch : ℕ) (w : WriteWatermark)
    → ((advance_to version w).0 ≡ max version w)
      × (((advance_to version w).1 ≡ true) ↔ (w < version))
      × ((is_fresh epoch (advance_to version w).0 ≡ true)
          ↔ ((version ≤ epoch) × (is_fresh epoch w ≡ true)))
unfolding advance_to is_fresh
advance_to-max version epoch w = ground arith
