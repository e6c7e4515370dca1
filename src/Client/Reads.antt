-- ===== src/Client/Reads.antt =====
-- What the block device reads (crates/blockyard-ublk/src/block_handler.rs).
use blockyard.Common.{
  ℕ, ◌≡◌, refl, ap, ◌⊎◌, inl, inr, Bool, true, false, Bool-cases, Option, none, some, Option-cases,
  List, [], ◌∷◌, ◌++◌, All,
}
use blockyard.Client.Device.{or_zeros, read_from_replicas, read_single_block_data}
use blockyard.Storage.Service.Read.{zeros}

module _ (is_known : ℕ → Bool) (read_extent : ℕ → Option (List ℕ)) where
  -- A node that the client has no address of, or that does not answer.
  abbrev pub Silent : ℕ → Type 0
  Silent node = (is_known node ≡ false) ⊎ (read_extent node ≡ none)

  -- The first of some nodes that answers, and its answer.
  abbrev pub FirstAnswer : List ℕ → List ℕ → Type 0
  FirstAnswer nodes found =
      (before : List ℕ) × (node : ℕ) × (after : List ℕ) × (nodes ≡ before ++ (node ∷ after))
      × All Silent before
      × (is_known node ≡ true)
      × (read_extent node ≡ some found)

  later-FirstAnswer :
      (n : ℕ) (nodes found : List ℕ)
      → Silent n
      → FirstAnswer nodes found
      → FirstAnswer (n ∷ nodes) found
  later-FirstAnswer n nodes found silent (before, node, after, is, quiet, known, answer) =
      (n ∷ before, node, after, ap (λ (ns : List ℕ). n ∷ ns) is, (silent, quiet), known, answer)

  -- What the loop over the replicas comes to.
  abbrev Outcome : List ℕ → Option (List ℕ) → Type 0
  Outcome nodes none = All Silent nodes
  Outcome nodes (some found) = FirstAnswer nodes found

  later-Outcome :
      (n : ℕ) (nodes : List ℕ) (o : Option (List ℕ))
      → Silent n
      → Outcome nodes o
      → Outcome (n ∷ nodes) o
  later-Outcome n nodes none silent quiet = (silent, quiet)
  later-Outcome n nodes (some found) silent first = later-FirstAnswer n nodes found silent first

  read_from_replicas-Outcome :
      (nodes : List ℕ) → Outcome nodes (read_from_replicas is_known read_extent nodes)
  unfolding read_from_replicas
  read_from_replicas-Outcome [] = tt
  read_from_replicas-Outcome (n ∷ nodes) =
      let rest = read_from_replicas is_known read_extent nodes in
      let induction = read_from_replicas-Outcome nodes in
      elim (Bool-cases (is_known n)) [
        | inr e ↦ rw e (later-Outcome n nodes rest (inl e) induction)
        | inl e ↦ elim (Option-cases (read_extent n)) [
          | inl f ↦ rw (e, f) (later-Outcome n nodes rest (inr f) induction)
          | inr (found, f) ↦ rw (e, f) ([], n, nodes, refl, tt, e, f)
        ]
      ]

  -- A block is read from the first of its replicas that answers; where none of them does, whether or
  -- not the block was ever written, the read succeeds with zeros.
  pub read_single_block_data-FirstAnswer :
      (nodes : List ℕ) (block_size : ℕ)
      → FirstAnswer nodes (read_single_block_data is_known read_extent nodes block_size)
        ⊎ (All Silent nodes
            × (read_single_block_data is_known read_extent nodes block_size ≡ zeros block_size))
  unfolding read_single_block_data
  read_single_block_data-FirstAnswer nodes block_size =
      go (read_from_replicas is_known read_extent nodes) (read_from_replicas-Outcome nodes)
    where
      go :
          (o : Option (List ℕ))
          → Outcome nodes o
          → FirstAnswer nodes (or_zeros block_size o)
            ⊎ (All Silent nodes × (or_zeros block_size o ≡ zeros block_size))
      go none quiet = inr (quiet, refl)
      go (some found) first = inl first
