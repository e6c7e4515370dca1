-- ===== src/Raft/Log.antt =====
-- crates/blockyard-raft/src/persistent_store.rs, `PersistentLogStore`. The table of the log is the list
-- of its entries in the order of their indices, and a transaction commits as a whole or changes
-- nothing. The JSON of an entry stands for the entry.
use blockyard.Common.{
  ℕ, Bool, Option, none, some, List, [], ◌∷◌, if◌then◌else◌, ltb, leb, nat_eq, keep, ◌&&◌,
}
use blockyard.Raft.Entries.{LogId, Entry}

pub record Vote : Type 0 where
  pub term : ℕ
  pub node_id : ℕ
  pub committed : Bool

pub record PersistentLogStore : Type 0 where
  pub log : List Entry
  pub vote : Option Vote
  pub purged : Option LogId

pub record LogState : Type 0 where
  pub last_purged_log_id : Option LogId
  pub last_log_id : Option LogId

abbrev pub new : PersistentLogStore
new = record { log = []; vote = none; purged = none }

abbrev pub index_of : Entry → ℕ
index_of e = e.log_id.index

-- `insert` of the table, by the index of the entry.
unfoldable pub put_entry : Entry → List Entry → List Entry
put_entry e [] = e ∷ []
put_entry e (f ∷ fs) =
    if ltb (index_of e) (index_of f)
    then e ∷ f ∷ fs
    else (if nat_eq (index_of e) (index_of f) then e ∷ fs else f ∷ put_entry e fs)

unfoldable pub put_entries : List Entry → List Entry → List Entry
unfolding put_entry
put_entries [] table = table
put_entries (e ∷ es) table = put_entries es (put_entry e table)

unfoldable pub last_log_id : List Entry → Option LogId
last_log_id [] = none
last_log_id (e ∷ []) = some e.log_id
last_log_id (e ∷ f ∷ fs) = last_log_id (f ∷ fs)

-- The entries from one index up to, but not with, another.
unfoldable pub try_get_log_entries : ℕ → ℕ → PersistentLogStore → List Entry
unfolding keep
try_get_log_entries from to s =
    keep (λ (e : Entry). leb from (index_of e) && ltb (index_of e) to) s.log

unfoldable pub get_log_state : PersistentLogStore → LogState
unfolding last_log_id
get_log_state s = record { last_purged_log_id = s.purged; last_log_id = last_log_id s.log }

unfoldable pub save_vote : Vote → PersistentLogStore → PersistentLogStore
save_vote vote s = record s { vote = some vote }

unfoldable pub read_vote : PersistentLogStore → Option Vote
read_vote s = s.vote

unfoldable pub append : List Entry → PersistentLogStore → PersistentLogStore
unfolding put_entries
append entries s = record s { log = put_entries entries s.log }

unfoldable pub truncate : LogId → PersistentLogStore → PersistentLogStore
unfolding keep
truncate log_id s = record s { log = keep (λ (e : Entry). ltb (index_of e) log_id.index) s.log }

unfoldable pub purge : LogId → PersistentLogStore → PersistentLogStore
unfolding keep
purge log_id s = record s {
  log = keep (λ (e : Entry). ltb log_id.index (index_of e)) s.log;
  purged = some log_id;
}
