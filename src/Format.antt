-- ===== src/Format.antt =====
-- common/format/user.go: the key of a user under a node.
use Prim.Native.String.{◌++◌}
use text.Mathlib.TextLemmas.{append_cancel_left}
use zicnode.Prelude.{String, ◌≡◌}

unfoldable pub user_tag : String → String → String
user_tag tag uuid = tag ++ ("|" ++ uuid)

-- Under one node two users have the same key only if they have the same uuid.
pub user_tag-injective : (tag u v : String) → user_tag tag u ≡ user_tag tag v → u ≡ v
unfolding user_tag
user_tag-injective tag u v h =
    append_cancel_left "|" u v (append_cancel_left tag ("|" ++ u) ("|" ++ v) h)
