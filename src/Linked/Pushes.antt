-- ===== src/Linked/Pushes.antt =====
-- `chunk_list_push`: what the list holds after some pushes.
use csearch.Common.{ℕ, ◌^◌, ◌≡◌, refl, sym, ap, subst, ◌∙◌, arith}
use csearch.Common.{
  Bool, List, [], ◌∷◌, ◌++◌, append_assoc, append-nil, some, length, length-append,
}
use csearch.Common.{◌==◌, eq→==, ne→==}
use native.Mathlib.Decide.{ℕ_discrete}
use csearch.Common.Outcome.{Outcome, ok, ◌>>=◌}
use csearch.Runtime.{Runtime}
use csearch.Linked.{LinkedChunk, zeroed, chunk_init, chunk_full}
use csearch.Linked.{ListHead, last_chunk, compress_last, make_room, chunk_list_push}
use csearch.Linked.Growth.{IsOpen, chunk_init-IsOpen, size_is, Doubles-le, push-IsOpen}
use csearch.Linked.Held.{
  IsClosed, AllClosed, Holds, no_chunk, some_chunks, closed_behind, Fits, Compresses,
  compress-IsClosed, Room,
}

module _ (r : Runtime) (lists : ListHead LinkedChunk) where
  open lists use {Head, entries, list_add_tail, write_last}

  last_chunk_is :
      (l : Head) (front : List LinkedChunk) (c : LinkedChunk)
      → entries l ≡ front ++ c ∷ []
      → last_chunk lists l ≡ ok c
  last_chunk_is l front c e = rw (last_chunk, lists.last_entry_is l front c e) refl

  full_is : {c : LinkedChunk} {ys : List ℕ} → IsOpen c ys → chunk_full c ≡ (length ys == 2 ^ 23)
  unfolding chunk_full
  full_is {c} o = rw (size_is o, o.limit) refl

  add_Room :
      (l : Head) (front : List LinkedChunk) (xs : List ℕ)
      → entries l ≡ front
      → AllClosed r front xs
      → Room r (entries (list_add_tail (chunk_init zeroed) l)) xs
  add_Room l front xs e closed = record {
    front = front;
    chunk = chunk_init zeroed;
    before = xs;
    held = [];
    entries_are =
        lists.entries-list_add_tail l (chunk_init zeroed)
        ∙ ap (λ es. es ++ chunk_init zeroed ∷ []) e;
    values_are = sym (append-nil xs);
    closed = closed;
    open_chunk = chunk_init-IsOpen;
    room = omega arith;
  }

  make_full :
      (l : Head) (front : List LinkedChunk) (c : LinkedChunk) (xs ys : List ℕ)
      → entries l ≡ front ++ c ∷ []
      → AllClosed r front xs
      → IsOpen c ys
      → length ys ≡ 2 ^ 23
      → Fits r ys
      → (l' : Head) × (make_room r lists l ≡ ok l') × Room r (entries l') (xs ++ ys)
  unfolding make_room compress_last
  make_full l front c xs ys e closed o full fits =
      let (n, c', done, now) = compress-IsClosed r c ys o full fits in
      let c'' : LinkedChunk = record c' { bcount = n } in
      let now' : IsClosed r c'' ys = record {
        compressed = now.compressed;
        encoded = now.encoded;
        whole = now.whole;
      } in
      (
        list_add_tail (chunk_init zeroed) (write_last c'' l),
        rw
            (
              lists.list_empty_cons l front c e,
              last_chunk_is l front c e,
              full_is o,
              eq→== (length ys) (2 ^ 23) full,
              done,
            )
            refl,
        add_Room (write_last c'' l) (front ++ c'' ∷ []) (xs ++ ys)
            (lists.entries-write_last l front c c'' e)
            (closed_behind r front c'' xs ys closed now'),
      )

  make_room_lem :
      (l : Head) (ds : List ℕ)
      → Holds r (entries l) ds
      → Compresses r ds
      → (l' : Head) × (make_room r lists l ≡ ok l') × Room r (entries l') ds
  unfolding make_room
  make_room_lem l ds (no_chunk e none_yet) fits = (
    list_add_tail (chunk_init zeroed) l,
    rw (lists.list_empty_nil l e) refl,
    add_Room l [] ds e none_yet,
  )
  make_room_lem l ds (some_chunks front c xs ys e values closed o pos) fits =
      elim (ℕ_discrete (length ys) (2 ^ 23)) [
        | yes full ↦
            let fit = fits xs ys [] (values ∙ ap (λ l. xs ++ l) (sym (append-nil ys))) full in
            let (l', made, room) = make_full l front c xs ys e closed o full fit in
            (l', made, subst (Room r (entries l')) (sym values) room)
        | no less ↦ (
          l,
          rw
              (
                lists.list_empty_cons l front c e,
                last_chunk_is l front c e,
                full_is o,
                ne→== (length ys) (2 ^ 23) less,
              )
              refl,
          record {
            front = front;
            chunk = c;
            before = xs;
            held = ys;
            entries_are = e;
            values_are = values;
            closed = closed;
            open_chunk = o;
            room = omega (arith, o.within, size_is o, Doubles-le c.capacity o.doubles);
          },
        )
      ]

  push-Holds :
      (l : Head) (ds : List ℕ) (d : ℕ)
      → Holds r (entries l) ds
      → Compresses r ds
      → (full : Bool) × (l' : Head) × (chunk_list_push r lists l d ≡ ok (some full, l'))
        × Holds r (entries l') (ds ++ d ∷ [])
  unfolding chunk_list_push
  push-Holds l ds d h fits =
      let (l1, made, room) = make_room_lem l ds h fits in
      let (full, c', pushed, o) = push-IsOpen r room.chunk d room.open_chunk room.room in
      (
        full,
        write_last c' l1,
        rw (made, last_chunk_is l1 room.front room.chunk room.entries_are, pushed) refl,
        some_chunks room.front c' room.before (room.held ++ d ∷ [])
            (lists.entries-write_last l1 room.front room.chunk c' room.entries_are)
            (ap (λ l. l ++ d ∷ []) room.values_are ∙ append_assoc room.before room.held (d ∷ []))
            room.closed o (omega (arith, length-append room.held (d ∷ []))),
      )

  -- The loop of ltest: pushes to a list.
  unfoldable pub push_all : Head → List ℕ → Outcome Head
  push_all l [] = ok l
  push_all l (d ∷ ds) = do (rc, l') ← chunk_list_push r lists l d; push_all l' ds

  pushes :
      (ds held : List ℕ) (l : Head)
      → Holds r (entries l) held
      → Compresses r (held ++ ds)
      → (l' : Head) × (push_all l ds ≡ ok l') × Holds r (entries l') (held ++ ds)
  unfolding push_all
  pushes [] held l h fits = (l, refl, subst (Holds r (entries l)) (sym (append-nil held)) h)
  pushes (d ∷ ds) held l h fits =
      let (full, l1, e, h1) = push-Holds l held d h (λ xs ys zs e. fits xs ys (zs ++ d ∷ ds) (
        ap (λ t. t ++ d ∷ ds) e
        ∙ append_assoc xs (ys ++ zs) (d ∷ ds)
        ∙ ap (λ t. xs ++ t) (append_assoc ys zs (d ∷ ds)))) in
      let same = append_assoc held (d ∷ []) ds in
      let (l2, e2, h2) = pushes ds (held ++ d ∷ []) l1 h1 (subst (Compresses r) (sym same) fits) in
      (l2, rw e e2, subst (Holds r (entries l2)) same h2)

  -- Values that are pushed to a new list, of which all 2^23 in a row compress to four bytes each or
  -- fewer, are held by its chunks in order: all chunks but the last hold 2^23 values, compressed,
  -- and the last holds the others, at least one unless there are none at all.
  pub push_all-Holds :
      (ds : List ℕ)
      → Compresses r ds
      → (l : Head) × (push_all lists.init_list_head ds ≡ ok l) × Holds r (entries l) ds
  push_all-Holds ds fits =
      pushes ds [] lists.init_list_head (no_chunk lists.entries-init_list_head refl) fits
