-- ===== src/Client/Answers.antt =====
-- Who is told what by the write batcher (crates/blockyard-ublk/src/write_batcher.rs).
use blockyard.Common.{
  ℕ-eq, String-eq, ℕ, ◌≡◌, ◌≤◌, refl, sym, ap, ◌∙◌, String, List, [], ◌∷◌, ◌++◌, map, All, arith,
}
use mathlib.Core.List.{append-nil, append_assoc, map-append}
use blockyard.Client.Results.{Result, ok, err}
use blockyard.Client.Watermark.{advance_to}
use blockyard.Client.Recovery.{Shared, advance}
use blockyard.Client.Batcher.{
  CommitRequest, PendingCommit, Answer, WriteBatcher, submit_commit, answer, on_batch,
  flush_commits, flush,
}

-- A call of `submit_commit`, or a flush.
pub data BatchEvent : Type 0 where
  submit : PendingCommit → BatchEvent
  wake : BatchEvent

abbrev pub waiter_of : PendingCommit → ℕ
waiter_of commit = commit.waiter

abbrev pub told : Answer → ℕ
told a = a.waiter

abbrev pub submitted : List BatchEvent → List ℕ
submitted [] = []
submitted (submit commit ∷ es) = commit.waiter ∷ submitted es
submitted (wake ∷ es) = submitted es

-- An epoch in which a waiter is told that its commit stands has been seen.
abbrev pub SeenIn : ℕ → Result ℕ → Type 0
SeenIn watermark (ok epoch) = epoch ≤ watermark
SeenIn watermark (err e) = Unit

abbrev pub Seen : ℕ → Answer → Type 0
Seen watermark a = SeenIn watermark a.result

advance-above :
    (epoch : ℕ) (s : Shared)
    → (epoch ≤ (advance epoch s).watermark) × (s.watermark ≤ (advance epoch s).watermark)
unfolding advance advance_to
advance-above epoch s = ground arith

answer-told :
    (result : Result ℕ) (cs : List PendingCommit)
    → map told (map (answer result) cs) ≡ map waiter_of cs
unfolding answer
answer-told result [] = refl
answer-told result (c ∷ cs) = ap (λ (ws : List ℕ). c.waiter ∷ ws) (answer-told result cs)

answer-Seen :
    (epoch watermark : ℕ) (cs : List PendingCommit)
    → epoch ≤ watermark
    → All (Seen watermark) (map (answer (ok epoch)) cs)
unfolding answer
answer-Seen epoch watermark [] le = tt
answer-Seen epoch watermark (c ∷ cs) le = (le, answer-Seen epoch watermark cs le)

answer-refused :
    (e : _) (watermark : ℕ) (cs : List PendingCommit)
    → All (Seen watermark) (map (answer (err e)) cs)
unfolding answer
answer-refused e watermark [] = tt
answer-refused e watermark (c ∷ cs) = (tt, answer-refused e watermark cs)

SeenIn-mono : (r : Result ℕ) (w w' : ℕ) → w ≤ w' → SeenIn w r → SeenIn w' r
SeenIn-mono (ok epoch) w w' le seen = omega arith
SeenIn-mono (err e) w w' le seen = tt

All-Seen_mono :
    (answers : List Answer) (w w' : ℕ) → w ≤ w' → All (Seen w) answers → All (Seen w') answers
All-Seen_mono [] w w' le seen = tt
All-Seen_mono (a ∷ answers) w w' le seen =
    (SeenIn-mono a.result w w' le seen.0, All-Seen_mono answers w w' le seen.1)

All_append :
    (w : ℕ) (xs ys : List Answer) → All (Seen w) xs → All (Seen w) ys → All (Seen w) (xs ++ ys)
All_append w [] ys h k = k
All_append w (x ∷ xs) ys h k = (h.0, All_append w xs ys h.1 k)

in_order :
    (answers later : List Answer) (waiting before submitted_later : List ℕ) (b : WriteBatcher)
    → map told answers ≡ before
    → b.pending ≡ []
    → map told later ++ waiting ≡ map waiter_of b.pending ++ submitted_later
    → map told (answers ++ later) ++ waiting ≡ before ++ submitted_later
in_order answers later waiting before submitted_later b now emptied order =
    let rest : map told later ++ waiting ≡ submitted_later = rw emptied at order in
    rw
      (
        map-append told answers later,
        append_assoc (map told answers) (map told later) waiting,
        rest,
        now,
      )
      refl

module _ (to_string : ℕ → String) {M : Type 0}
    (commit_extent_mappings_batch : List CommitRequest → M → M × Result ℕ) where
  -- The batcher through some calls and flushes, with all that the waiters are told.
  abbrev pub run : List BatchEvent → WriteBatcher × M → (WriteBatcher × M) × List Answer
  run [] bm = (bm, [])
  run (submit commit ∷ es) (b, m) = run es (submit_commit commit b, m)
  run (wake ∷ es) bm =
      let (bm1, answers) = flush to_string commit_extent_mappings_batch bm in
      let (bm2, later) = run es bm1 in (bm2, answers ++ later)

  on_batch-Seen :
      (result : Result ℕ) (cs : List PendingCommit) (s : Shared)
      → All (Seen (on_batch to_string result cs s).watermark) (map (answer result) cs)
        × (s.watermark ≤ (on_batch to_string result cs s).watermark)
  unfolding on_batch
  on_batch-Seen (err e) cs s = (answer-refused e s.watermark cs, omega arith)
  on_batch-Seen (ok epoch) cs s =
      let (reached, above) = advance-above epoch s in
      (answer-Seen epoch (advance epoch s).watermark cs reached, above)

  -- What a flush does to the queue, the waiters and the watermark.
  flush_commits-settles :
      (cs : List PendingCommit) (b : WriteBatcher) (m : M)
      → (map told (flush_commits to_string commit_extent_mappings_batch cs (b, m)).1
          ≡ map waiter_of cs)
        × ((flush_commits to_string commit_extent_mappings_batch cs (b, m)).0.0.pending ≡ b.pending)
        × All
            (Seen
              (flush_commits to_string commit_extent_mappings_batch cs (b, m)).0.0.shared.watermark)
            (flush_commits to_string commit_extent_mappings_batch cs (b, m)).1
        × (b.shared.watermark
            ≤ (flush_commits to_string commit_extent_mappings_batch cs (b, m)).0.0.shared.watermark)
  unfolding flush_commits
  flush_commits-settles [] b m = (refl, refl, tt, omega arith)
  flush_commits-settles (c ∷ cs) b m =
      let (m', result) =
        commit_extent_mappings_batch (map (λ (p : PendingCommit). p.request) (c ∷ cs)) m in
      let (seen, above) = on_batch-Seen result (c ∷ cs) b.shared in
      (answer-told result (c ∷ cs), refl, seen, above)

  -- Through any calls and flushes, every commit that waited or was submitted either has been answered,
  -- once, or still waits, in the order of the calls; and the watermark has reached every epoch in which
  -- a waiter was told that its commit stands, and is not lower than before.
  pub run-settles :
      (es : List BatchEvent) (b : WriteBatcher) (m : M)
      → (map told (run es (b, m)).1 ++ map waiter_of (run es (b, m)).0.0.pending
          ≡ map waiter_of b.pending ++ submitted es)
        × All (Seen (run es (b, m)).0.0.shared.watermark) (run es (b, m)).1
        × (b.shared.watermark ≤ (run es (b, m)).0.0.shared.watermark)
  unfolding submit_commit flush
  run-settles [] b m = (sym (append-nil (map waiter_of b.pending)), tt, omega arith)
  run-settles (submit commit ∷ es) b m =
      let (order, seen, above) = run-settles es (submit_commit commit b) m in
      let one = map-append waiter_of b.pending (commit ∷ []) in
      let shift = append_assoc (map waiter_of b.pending) (commit.waiter ∷ []) (submitted es) in
      (order ∙ ap (λ (ws : List ℕ). ws ++ submitted es) one ∙ shift, seen, above)
  run-settles (wake ∷ es) b m =
      let ((b1, m1), answers) = flush to_string commit_extent_mappings_batch (b, m) in
      let (told_now, emptied, seen, above) =
        flush_commits-settles b.pending (record b { pending = [] }) m in
      let (order, seen', above') = run-settles es b1 m1 in
      (
        in_order answers (run es (b1, m1)).1 _ (map waiter_of b.pending) (submitted es) b1 told_now
            emptied order,
        All_append _ answers _ (All-Seen_mono answers _ _ above' seen) seen',
        omega arith,
      )
