-- ===== src/Page/Text.antt =====
-- The text that `crawl_parse_real` takes from a page.
use csearch.Common.{ℕ, zero, suc, ◌+◌, ◌^◌, ◌≤◌, ◌<◌, ◌≡◌, refl, sym, ap, ◌∙◌, arith}
use csearch.Common.{
  List, [], ◌∷◌, ◌++◌, some, append-nil, append_assoc, length, ◌==◌, if◌then◌else◌,
}
use csearch.Common.{Bool-cases, inl, inr}
use csearch.Common.Outcome.{ok}
use csearch.Runtime.{Runtime}
use csearch.Buff.{Buff, buff_cat}
use csearch.Buff.Laws.{IsValid, contents}
use csearch.Buff.Append.{buff_cat_lem}
use csearch.Page.{script, style, other_tag, Node, Nodes, text, element, other_node, nil, cons}
use csearch.Page.{separate, crawl_parse_real, parse_children}

-- The bytes that are no blanks.
unfoldable pub letters : List ℕ → List ℕ
letters [] = []
letters (c ∷ cs) = let rest = letters cs in if c == 32 then rest else c ∷ rest

letters-append : (xs ys : List ℕ) → letters (xs ++ ys) ≡ letters xs ++ letters ys
unfolding letters
letters-append [] ys = refl
letters-append (c ∷ cs) ys = elim (Bool-cases (c == 32)) [
  | inl t ↦ rw t (letters-append cs ys)
  | inr f ↦ rw f (ap (λ t. c ∷ t) (letters-append cs ys))
]

unfoldable mutual
  -- The letters of all texts that stand in no script and no style, in the order of the page.
  pub visible : Node → List ℕ
  visible (text t) = letters t
  visible (element script children) = []
  visible (element style children) = []
  visible (element other_tag children) = visible_all children
  visible other_node = []

  pub visible_all : Nodes → List ℕ
  visible_all nil = []
  visible_all (cons node nodes) = visible node ++ visible_all nodes

unfoldable mutual
  -- A bound of what the node adds: its texts, and a blank for each child.
  pub room : Node → ℕ
  room (text t) = length t
  room (element tag children) = room_all children
  room other_node = 0

  pub room_all : Nodes → ℕ
  room_all nil = 0
  room_all (cons node nodes) = suc (room node) + room_all nodes

-- The buffer after text with these letters was added, of at most `n` bytes.
pub record Parsed (b : Buff) (n : ℕ) (ls : List ℕ) (b' : Buff) : Type 0 where
  pub valid : IsValid b'
  pub size_le : b'.size ≤ b.size + n
  pub letters_are : letters (contents b') ≡ letters (contents b) ++ ls

nothing : {b : Buff} (n : ℕ) → IsValid b → Parsed b n [] b
nothing {b} n v = record {
  valid = v;
  size_le = omega arith;
  letters_are = sym (append-nil (letters (contents b)));
}

both :
    {b c d : Buff} {n m : ℕ} {ls ms : List ℕ}
    → Parsed b n ls c
    → Parsed c m ms d
    → Parsed b (n + m) (ls ++ ms) d
both {b} {c} {d} {n} {m} {ls} {ms} p q = record {
  valid = q.valid;
  size_le = omega (arith, p.size_le, q.size_le);
  letters_are =
      q.letters_are ∙ ap (λ t. t ++ ms) p.letters_are ∙ append_assoc (letters (contents b)) ls ms;
}

widen : {b c : Buff} {n m : ℕ} {ls : List ℕ} → n ≤ m → Parsed b n ls c → Parsed b m ls c
widen le p = record {
  valid = p.valid;
  size_le = omega (arith, p.size_le);
  letters_are = p.letters_are;
}

module _ (r : Runtime) where
  cat-Parsed :
      (t : List ℕ) {b : Buff}
      → IsValid b
      → b.size + length t < 2 ^ 30
      → (b' : Buff) × (buff_cat r b (some t) ≡ ok b') × Parsed b (length t) (letters t) b'
  cat-Parsed t {b} v small =
      let (b', e, a) = buff_cat_lem r t v small in
      (
        b',
        e,
        record {
          valid = a.valid;
          size_le = omega (arith, a.size_is);
          letters_are = ap letters a.contents_is ∙ letters-append (contents b) t;
        },
      )

  separate-Parsed :
      (k : ℕ) {b : Buff}
      → IsValid b
      → b.size + 1 < 2 ^ 30
      → (b' : Buff) × (separate r k b ≡ ok b') × Parsed b 1 [] b'
  unfolding separate letters
  separate-Parsed zero {b} v small = (b, refl, nothing 1 v)
  separate-Parsed (suc k) {b} v small = elim (Bool-cases (b.size == 0)) [
    | inl t ↦ (b, rw t refl, nothing 1 v)
    | inr f ↦ let (b', e, p) = cat-Parsed (32 ∷ []) v (omega arith) in (b', rw f e, p)
  ]

  mutual
    unfolding crawl_parse_real parse_children visible visible_all room room_all

    parse_node :
        (node : Node) {b : Buff}
        → IsValid b
        → b.size + room node < 2 ^ 30
        → (b' : Buff) × (crawl_parse_real r b node ≡ ok b') × Parsed b (room node) (visible node) b'
    parse_node (text t) v small = cat-Parsed t v small
    parse_node (element script children) {b} v small = (b, refl, nothing (room_all children) v)
    parse_node (element style children) {b} v small = (b, refl, nothing (room_all children) v)
    parse_node (element other_tag children) v small = parse_nodes children 0 v small
    parse_node other_node {b} v small = (b, refl, nothing 0 v)

    parse_nodes :
        (nodes : Nodes) (k : ℕ) {b : Buff}
        → IsValid b
        → b.size + room_all nodes < 2 ^ 30
        → (b' : Buff) × (parse_children r k b nodes ≡ ok b')
          × Parsed b (room_all nodes) (visible_all nodes) b'
    parse_nodes nil k {b} v small = (b, refl, nothing 0 v)
    parse_nodes (cons node nodes) k {b} v small =
        let (b1, e1, p1) = separate-Parsed k v (omega arith) in
        let (b2, e2, p2) = parse_node node p1.valid (omega (arith, p1.size_le)) in
        let (b3, e3, p3) =
          parse_nodes nodes (suc k) p2.valid (omega (arith, p1.size_le, p2.size_le)) in
        (b3, rw (e1, e2, e3) refl, widen (omega arith) (both p1 (both p2 p3)))

  -- Into a valid buffer that stays below 2^30 bytes with all texts of a page and a blank for each of its
  -- nodes, `crawl_parse_real` succeeds, keeps the buffer valid, and adds, up to blanks, exactly the
  -- texts that stand in no script and no style, in the order of the page.
  pub parse-visible :
      (node : Node) {b : Buff}
      → IsValid b
      → b.size + room node < 2 ^ 30
      → (b' : Buff) × (crawl_parse_real r b node ≡ ok b') × Parsed b (room node) (visible node) b'
  parse-visible node v small = parse_node node v small
