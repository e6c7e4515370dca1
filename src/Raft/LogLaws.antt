-- ===== src/Raft/LogLaws.antt =====
-- What the log on disk is after appends, truncations and purges
-- (crates/blockyard-raft/src/persistent_store.rs).
use blockyard.Common.{
  ℕ, ◌≡◌, ◌≤◌, ◌<◌, refl, sym, ap, ◌∙◌, true, false, Bool-cases, some, inl, inr, List, [], ◌∷◌,
  ◌++◌, ltb, nat_eq, keep, All, arith,
}
use mathlib.Core.Path.{subst}
use mathlib.Core.List.{append-nil, append_assoc}
use blockyard.Raft.Entries.{LogId, Entry}
use blockyard.Raft.Log.{
  PersistentLogStore, index_of, put_entry, put_entries, append, truncate, purge,
}
use blockyard.Raft.Restart.{Rising, entries_after}

met :
    (n : ℕ) (e : Entry) (es fs : List Entry)
    → All (λ (f : Entry). n < index_of f) (es ++ e ∷ fs)
    → n < index_of e
met n e [] fs h = h.0
met n e (f ∷ es) fs h = met n e es fs h.1

keep-none_below :
    (n : ℕ) (es : List Entry)
    → All (λ (f : Entry). n < index_of f) es
    → keep (λ (f : Entry). ltb (index_of f) n) es ≡ []
unfolding keep
keep-none_below n [] h = refl
keep-none_below n (e ∷ es) h =
    let no : ltb (index_of e) n ≡ false = ground arith in rw no (keep-none_below n es h.1)

put_entry-last :
    (e : Entry) (es fs : List Entry) → Rising (es ++ e ∷ fs) → put_entry e es ≡ es ++ e ∷ []
unfolding put_entry
put_entry-last e [] fs rising = refl
put_entry-last e (f ∷ es) fs rising =
    let above : index_of f < index_of e = met (index_of f) e es fs rising.0 in
    let not_less : ltb (index_of e) (index_of f) ≡ false = ground arith in
    let not_same : nat_eq (index_of e) (index_of f) ≡ false = ground arith in
    rw (not_less, not_same) (ap (λ (gs : List Entry). f ∷ gs) (put_entry-last e es fs rising.1))

put_entries-last :
    (es table : List Entry) → Rising (table ++ es) → put_entries es table ≡ table ++ es
unfolding put_entries
put_entries-last [] table rising = sym (append-nil table)
put_entries-last (e ∷ es) table rising =
    let whole : (table ++ e ∷ []) ++ es ≡ table ++ e ∷ es = append_assoc table (e ∷ []) es in
    rw (put_entry-last e table es rising)
      (put_entries-last es (table ++ e ∷ []) (subst Rising (sym whole) rising) ∙ whole)

-- The cut of a log at an entry keeps those before it.
cut :
    (e : Entry) (es fs : List Entry)
    → Rising (es ++ e ∷ fs)
    → keep (λ (f : Entry). ltb (index_of f) (index_of e)) (es ++ e ∷ fs) ≡ es
unfolding keep
cut e [] fs rising =
    let own : ltb (index_of e) (index_of e) ≡ false = ground arith in
    rw own (keep-none_below (index_of e) fs rising.0)
cut e (f ∷ es) fs rising =
    let above : index_of f < index_of e = met (index_of f) e es fs rising.0 in
    let kept : ltb (index_of f) (index_of e) ≡ true = ground arith in
    rw kept (ap (λ (gs : List Entry). f ∷ gs) (cut e es fs rising.1))

-- In a log in the order of its indices, a truncation at an entry and an append of entries above those
-- before it leave the entries before it and then the appended ones, in order.
pub append-truncate :
    (s : PersistentLogStore) (e : Entry) (es fs later : List Entry)
    → s.log ≡ es ++ e ∷ fs
    → Rising s.log
    → Rising (es ++ later)
    → (append later (truncate e.log_id s)).log ≡ es ++ later
unfolding append truncate
append-truncate s e es fs later is rising next =
    let kept : keep (λ (f : Entry). ltb (index_of f) (index_of e)) s.log ≡ es =
      rw is (cut e es fs (subst Rising is rising)) in
    rw kept (put_entries-last later es next)

keep-keep :
    (m n : ℕ) (es : List Entry)
    → m ≤ n
    → keep (λ (e : Entry). ltb n (index_of e)) (keep (λ (e : Entry). ltb m (index_of e)) es)
      ≡ keep (λ (e : Entry). ltb n (index_of e)) es
unfolding keep
keep-keep m n [] le = refl
keep-keep m n (e ∷ es) le = elim (Bool-cases (ltb n (index_of e))) [
  | inl above ↦
      let too : ltb m (index_of e) ≡ true = ground arith in
      rw (too, above) (ap (λ (fs : List Entry). e ∷ fs) (keep-keep m n es le))
  | inr below ↦ elim (Bool-cases (ltb m (index_of e))) [
    | inl above ↦ rw (above, below) (keep-keep m n es le)
    | inr too ↦ rw (too, below) (keep-keep m n es le)
  ]
]

-- A purge up to an id that a state machine has applied takes away no entry that it is still to be given.
pub entries_after-purge :
    (id last : LogId) (s : PersistentLogStore)
    → id.index ≤ last.index
    → entries_after (some last) (purge id s).log ≡ entries_after (some last) s.log
unfolding purge
entries_after-purge id last s le = keep-keep id.index last.index s.log le
