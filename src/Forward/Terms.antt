-- ===== src/Forward/Terms.antt =====
-- How many terms a forward_t can take.
use csearch.Common.{ℕ, ◌+◌, ◌≤◌, ◌<◌, ◌≡◌, refl, ap, ◌∙◌, arith}
use csearch.Common.{List, [], ◌∷◌, ◌++◌, length, append-nil, append_assoc, length-append}
use csearch.Common.Outcome.{Outcome, ok, fault, heap_overflow, ◌>>=◌}
use csearch.Runtime.{Runtime}
use csearch.Chunk
use csearch.Chunk.Laws.{IsValid, contents, push-ok, push_overflow}
use csearch.Forward.{Forward, ForwardHead, zero_forward, forward_set_id, forward_push_term}
use native.Mathlib.Decide.{dec_lt}

-- A forward_t that was filled by pushes only.
pub record Filled (f : Forward) (terms : List ℕ) : Type 0 where
  pub valid : IsValid f.chunk
  pub held : contents f.chunk ≡ terms
  pub size_is : f.chunk.size ≡ length terms
  pub cap_is : 0 < length terms → f.chunk.cap ≡ 256

empty-Filled : (h : ForwardHead) → Filled (record { h = h; chunk = Chunk.empty }) []
empty-Filled h = record {
  valid = omega arith;
  held = refl;
  size_is = refl;
  cap_is = λ h. absurd (omega arith);
}

module _ (r : Runtime) where
  -- `forward_push_term` for each of the terms
  unfoldable pub push_terms : Forward → List ℕ → Outcome Forward
  push_terms f [] = ok f
  push_terms f (t ∷ ts) = do f' ← forward_push_term r f t; push_terms f' ts

  push-Filled :
      (f : Forward) (terms : List ℕ) (t : ℕ)
      → Filled f terms
      → length terms < 256
      → (f' : Forward) × (forward_push_term r f t ≡ ok f')
        × (f'.h ≡ f.h)
        × Filled f' (terms ++ t ∷ [])
  unfolding forward_push_term
  push-Filled f terms t p lt =
      let (c, e, v, cap, size, all) = push-ok r t p.valid (omega (arith, p.size_is)) in
      (
        record f { chunk = c },
        rw e,
        refl,
        record {
          valid = v;
          held = all ∙ ap (λ ts. ts ++ t ∷ []) p.held;
          size_is = omega (arith, size, p.size_is, length-append terms (t ∷ []));
          cap_is = λ h. cap;
        },
      )

  push-fails :
      (f : Forward) (t : ℕ) {terms : List ℕ}
      → Filled f terms
      → 256 ≤ length terms
      → forward_push_term r f t ≡ fault heap_overflow
  unfolding forward_push_term
  push-fails f t p many =
      let cap = p.cap_is (omega arith) in
      let full : f.chunk.size ≡ f.chunk.cap = omega (arith, p.size_is, cap, p.valid.within) in
      rw (push_overflow r t p.valid full (omega (arith, p.size_is)))

  -- Up to 256 terms are taken, in order.
  push_terms-Filled :
      (ts : List ℕ) (f : Forward) (terms : List ℕ)
      → Filled f terms
      → length terms + length ts ≤ 256
      → (f' : Forward) × (push_terms f ts ≡ ok f') × (f'.h ≡ f.h) × Filled f' (terms ++ ts)
  unfolding push_terms
  push_terms-Filled [] f terms p fits = (f, refl, refl, rw append-nil p)
  push_terms-Filled (t ∷ ts) f terms p fits =
      let (f1, e1, h1, p1) = push-Filled f terms t p (omega arith) in
      let len = length-append terms (t ∷ []) in
      let (f2, e2, h2, p2) = push_terms-Filled ts f1 (terms ++ t ∷ []) p1 (omega arith) in
      (f2, rw e1 e2, h2 ∙ h1, rw (append_assoc terms (t ∷ []) ts) at p2)

  -- The 257th push stores behind the buffer, since nobody heeds that the chunk is full.
  push_terms-overflow :
      (ts : List ℕ) (f : Forward) (terms : List ℕ)
      → Filled f terms
      → length terms ≤ 256
      → 256 < length terms + length ts
      → push_terms f ts ≡ fault heap_overflow
  unfolding push_terms
  push_terms-overflow [] f terms p le gt = absurd (omega arith)
  push_terms-overflow (t ∷ ts) f terms p le gt = elim (dec_lt (length terms) 256) [
    | yes lt ↦
        let (f1, e1, h1, p1) = push-Filled f terms t p lt in
        let len = length-append terms (t ∷ []) in
        rw e1 (push_terms-overflow ts f1 (terms ++ t ∷ []) p1 (omega arith) (omega arith))
    | no ge ↦ rw (push-fails f t p (omega arith))
  ]

  -- At most 256 terms pushed one after the other to a new forward_t with its id set are held in
  -- order, under that id.
  pub push_terms-ok :
      (id : ℕ) (ts : List ℕ)
      → length ts ≤ 256
      → (f : Forward) × (push_terms (forward_set_id zero_forward id) ts ≡ ok f)
        × (f.h.id ≡ id)
        × Filled f ts
  unfolding forward_set_id
  push_terms-ok id ts fits =
      let (f, e, h, p) =
        push_terms-Filled ts (forward_set_id zero_forward id) [] (empty-Filled _) (omega arith) in
      (f, e, ap (λ h. h.id) h, p)

  -- Pushing more than 256 terms to a new forward_t stores behind its buffer.
  pub push_terms-faults :
      (ts : List ℕ) → 256 < length ts → push_terms zero_forward ts ≡ fault heap_overflow
  push_terms-faults ts many =
      push_terms-overflow ts zero_forward [] (empty-Filled _) (omega arith) (omega arith)
