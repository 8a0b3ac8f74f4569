-- ===== src/Json.antt =====
-- The JSON values that the client keeps and sends: objects with their keys in insertion order, and
-- the language's property read, property write, object spread and truth value.
pub mod Laws
use irwandhi_gitops_lab.Base.{
  ℕ, Bool, true, false, not, Option, none, some, ◌==◌, if◌then◌else◌, is_empty,
}
use irwandhi_gitops_lab.Text.{Text, eq_text}

mutual
  pub data Json : Type 0 where
    null : Json
    bool : Bool → Json
    num : ℕ → Json
    str : Text → Json
    arr : Items → Json
    obj : Object → Json

  pub data Items : Type 0 where
    nil : Items
    cons : Json → Items → Items

  pub data Object : Type 0 where
    empty : Object
    entry : Text → Json → Object → Object

-- `o[key]`, with `none` for undefined.
unfoldable pub get : Text → Object → Option Json
get key empty = none
get key (entry k v o) = let rest = get key o in if eq_text k key then some v else rest

-- `o[key] = value`: a key that is there keeps its place, a new one goes last.
unfoldable pub put : Text → Json → Object → Object
put key value empty = entry key value empty
put key value (entry k v o) =
    let rest = put key value o in if eq_text k key then entry k value o else entry k v rest

-- `{ ...base, ...over }`.
unfoldable pub spread : Object → Object → Object
unfolding put
spread base empty = base
spread base (entry k v o) = spread (put k v base) o

-- `!!value`, undefined included.
unfoldable pub is_truthy : Option Json → Bool
is_truthy none = false
is_truthy (some null) = false
is_truthy (some (bool b)) = b
is_truthy (some (num n)) = not (n == 0)
is_truthy (some (str s)) = not (is_empty s)
is_truthy (some (arr xs)) = true
is_truthy (some (obj o)) = true

abbrev value_or : Option Json → Json → Json
value_or none d = d
value_or (some v) d = v

-- `value || other`.
unfoldable pub or_else : Option Json → Json → Json
unfolding is_truthy
or_else v d = if is_truthy v then value_or v d else d
