-- ===== src/Client/Watermark.antt =====
-- crates/blockyard-ublk/src/watermark.rs: the session's watermark, the latest commit it must see.
use blockyard.Common.{ℕ, ◌≡◌, Bool, true, false, List, ◌∷◌, leb, if◌then◌else◌}

abbrev pub WriteWatermark : Type 0
WriteWatermark = ℕ

abbrev pub new : WriteWatermark
new = 0

abbrev pub with_initial : ℕ → WriteWatermark
with_initial epoch = epoch

-- `advance` and `advance_to` when no other thread runs: the exchange finds what was loaded.
unfoldable pub advance_to : ℕ → WriteWatermark → WriteWatermark × Bool
advance_to version w = if leb version w then (w, false) else (version, true)

unfoldable pub is_fresh : ℕ → WriteWatermark → Bool
is_fresh epoch w = leb w epoch

-- One call of `advance_to` in one thread: before its load, between the load and the exchange, and
-- after its return.
pub data Caller : Type 0 where
  loading : ℕ → Caller
  exchanging : ℕ → ℕ → Caller
  returned : ℕ → Bool → Caller

-- What a load starts: the return of false, or an exchange against the value loaded.
unfoldable pub load : ℕ → WriteWatermark → Caller
load version w = if leb version w then returned version false else exchanging version w

-- One step of a thread. The exchange may fail at any value: it is a weak one, and another thread may
-- have written in between.
pub data Turn (w : WriteWatermark) : Caller → WriteWatermark → Caller → Type 0 where
  loads : {version : ℕ} {c : Caller} → load version w ≡ c → Turn w (loading version) w c
  exchanges :
      {version current : ℕ}
      → current ≡ w
      → Turn w (exchanging version current) version (returned version true)
  fails : {version current : ℕ} → Turn w (exchanging version current) w (loading version)

-- One step of the threads: a step of one of them.
pub data Step (w w' : WriteWatermark) : List Caller → List Caller → Type 0 where
  here : {c c' : Caller} {cs : List Caller} → Turn w c w' c' → Step w w' (c ∷ cs) (c' ∷ cs)
  there : {c : Caller} {cs cs' : List Caller} → Step w w' cs cs' → Step w w' (c ∷ cs) (c ∷ cs')

pub data Run (w : WriteWatermark) (cs : List Caller) : WriteWatermark → List Caller → Type 0 where
  stop : Run w cs w cs
  more :
      {u v : WriteWatermark} {ds es : List Caller} → Run w cs u ds → Step u v ds es → Run w cs v es
