-- ===== src/Page.antt =====
-- crawl_parse_t of tool.c: the text of a page, from the node tree that gumbo makes of it.
pub mod Text
mod Tests
use csearch.Common.{ℕ, zero, suc, ◌+◌, List, [], ◌∷◌, ◌++◌, some, Bool, true, false, ◌&&◌, ◌||◌}
use csearch.Common.{ltb, ◌==◌, if◌then◌else◌}
use csearch.Common.Outcome.{Outcome, ok, ◌>>=◌}
use csearch.Runtime.{Runtime}
use csearch.Buff.{Buff, buff_cat}

-- GumboTag, as far as it is told apart here.
pub data Tag : Type 0 where
  script style : Tag
  other_tag : Tag

abbrev is_hidden : Tag → Bool
is_hidden script = true
is_hidden style = true
is_hidden other_tag = false

-- GumboNode, as far as it is read here: texts, elements, and all other types of nodes.
mutual
  pub data Node : Type 0 where
    text : List ℕ → Node
    element : Tag → Nodes → Node
    other_node : Node

  pub data Nodes : Type 0 where
    nil : Nodes
    cons : Node → Nodes → Nodes

module _ (r : Runtime) where
  -- `if( k > 0 && c->buff.size ) buff_cat( &c->buff, " ");`
  unfoldable pub separate : ℕ → Buff → Outcome Buff
  separate zero b = ok b
  separate (suc k) b = if b.size == 0 then ok b else buff_cat r b (some (32 ∷ []))

  -- `parse_children k` is the loop over the children from the one with index `k` on.
  unfoldable mutual
    pub crawl_parse_real : Buff → Node → Outcome Buff
    crawl_parse_real b (text t) = buff_cat r b (some t)
    crawl_parse_real b (element tag children) =
        let parsed = parse_children 0 b children in if is_hidden tag then ok b else parsed
    crawl_parse_real b other_node = ok b

    pub parse_children : ℕ → Buff → Nodes → Outcome Buff
    parse_children k b nil = ok b
    parse_children k b (cons node nodes) = do
      b' ← separate k b
      b'' ← crawl_parse_real b' node
      parse_children (suc k) b'' nodes
