-- ===== src/Page/Tests.antt =====
-- The text of a concrete page.
use csearch.Common.{◌≡◌, refl, arith, [], ◌∷◌}
use csearch.Common.Outcome.{ok, ◌>>=◌}
use csearch.Runtime.{Runtime, stream_vbyte}
use csearch.Buff.{Buff, empty_buff, append, buff_grow, buff_cat, nearest_power}
use csearch.Buff.Laws.{IsValid, contents}
use csearch.Page.{Node, text, element, nil, cons, script, other_tag}
use csearch.Page.{crawl_parse_real, parse_children, separate}
use csearch.Page.Text.{room, visible, Parsed, parse-visible, letters}

abbrev rt : Runtime
rt = stream_vbyte 0xa5

-- <p>ab<script>x</script><b>c</b></p>
abbrev page : Node
page = element other_tag (
    cons (text (97 ∷ 98 ∷ [])) (
      cons (element script (cons (text (120 ∷ [])) nil))
        (cons (element other_tag (cons (text (99 ∷ [])) nil)) nil)))

-- "ab  c"
page_text :
    (crawl_parse_real rt empty_buff page >>= λ b. ok (contents b))
    ≡ ok (97 ∷ 98 ∷ 32 ∷ 32 ∷ 99 ∷ [])
unfolding crawl_parse_real parse_children separate buff_cat buff_grow append nearest_power
page_text = refl

empty-IsValid : IsValid empty_buff
empty-IsValid = record { allocated = refl; within = omega arith; word = omega arith }

parse-visible_example :
    (b' : Buff) × (crawl_parse_real rt empty_buff page ≡ ok b')
    × Parsed empty_buff (room page) (97 ∷ 98 ∷ 99 ∷ []) b'
unfolding room visible letters
parse-visible_example = parse-visible rt page empty-IsValid (omega arith)
