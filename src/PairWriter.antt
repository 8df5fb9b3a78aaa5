-- ===== src/PairWriter.antt =====
-- index_writer_t of iw.c: runs of (term, doc) pairs, handed to a callback in groups.
pub mod Runs
pub mod Groups
pub mod NewTerm
mod Tests
use csearch.Common.{ℕ, ◌+◌, ◌-◌, ◌^◌, Bool, ◌&&◌, ◌||◌, List, [], ◌∷◌, ◌++◌, length}
use csearch.Common.{ltb, leb, ◌==◌, if◌then◌else◌, true, false}
use csearch.Common.Outcome.{Outcome, ok, fault, heap_overflow, ◌>>=◌}

-- `dt`
pub record Pair : Type 0 where
  pub term : ℕ
  pub doc : ℕ

-- `kv_data` is `data`, a kvec_t; `user_data` what the callback works on.
pub record PairWriter (A : Type 0) : Type 0 where
  pub last_pair : Pair
  pub maxy : ℕ
  pub kv_data : List ℕ
  pub user_data : A

-- -1 as an int
abbrev pub minus_one : ℕ
minus_one = 2 ^ 32 - 1

-- The "bogus arg check"
unfoldable pub is_bogus : Pair → Pair → Bool
is_bogus last pair = ltb pair.term last.term || ((pair.term == last.term) && leb pair.doc last.doc)

unfoldable pub is_new_term : Pair → Pair → Bool
is_new_term last pair =
    if last.term == pair.term then false else (if last.term == 0 then false else true)

unfoldable pub index_writer_init : {A : Type 0} → ℕ → A → PairWriter A
index_writer_init maxy user_data = record {
  last_pair = record { term = 0; doc = 0 };
  maxy = maxy;
  kv_data = [];
  user_data = user_data;
}

-- `compress` is vbyte_compress_sorted64 of libvbyte: from the number before and the numbers, the
-- bytes. `callback` is the flush_callback: its result, and what it makes of the user data.
module _ (compress : ℕ → List ℕ → List ℕ) {A : Type 0} (callback : Pair → List ℕ → A → ℕ × A) where
  -- Without data the number of documents to compress is the size_t -1, and the code reads on behind
  -- the array. malloc does not fail.
  unfoldable pub index_writer_flush : PairWriter A → Outcome (ℕ × PairWriter A)
  index_writer_flush self = elim self.kv_data [
    | [] ↦ fault heap_overflow
    | doc ∷ docs ↦
        let start_pair : Pair = record { term = self.last_pair.term; doc = doc } in
        let (rc, user_data) = callback start_pair (compress doc docs) self.user_data in
        ok (rc, record self { user_data = user_data })
  ]

  -- The "new doc case"
  unfoldable pub push_doc : PairWriter A → Pair → Outcome (ℕ × PairWriter A)
  push_doc self pair =
      let pushed = record self { kv_data = self.kv_data ++ pair.doc ∷ []; last_pair = pair } in
      let flushed = (do
        (rc, self') ← index_writer_flush pushed
        ok (rc, record self' { kv_data = [] })) in
      if leb self.maxy (length pushed.kv_data) then flushed else ok (0, pushed)

  unfoldable pub index_writer_write : PairWriter A → Pair → Outcome (ℕ × PairWriter A)
  index_writer_write self pair =
      let flushed = (do
        (_, self') ← index_writer_flush self
        ok (0, record self' { kv_data = []; last_pair = pair })) in
      if is_bogus self.last_pair pair
      then ok (minus_one, self)
      else (if is_new_term self.last_pair pair then flushed else push_doc self pair)
