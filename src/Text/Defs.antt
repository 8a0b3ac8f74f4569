-- ===== src/Text/Defs.antt =====
-- The type of texts, and literals.
use Prim.Native.Char.{code}
use irwandhi_gitops_lab.Base.{
  ℕ, ◌+◌, ◌-◌, ◌/◌, ◌%◌, String, Bool, List, [], ◌∷◌, ◌++◌, ltb, if◌then◌else◌, not, is_empty,
}

-- The code units of a string, each below 65536.
abbrev pub Text : Type 0
Text = List ℕ

-- The code units of one code point: a surrogate pair above the basic plane.
unfoldable pub units : ℕ → Text
units c =
    if ltb c 0x10000
    then c ∷ []
    else (0xd800 + (c - 0x10000) / 0x400) ∷ (0xdc00 + (c - 0x10000) % 0x400) ∷ []

-- A literal of the source.
unfoldable pub lit : String → Text
unfolding units
lit String.[] = []
lit (String.◌∷◌ c s) = units (code c) ++ lit s

-- `!!s`: the empty string is the only falsy one.
abbrev pub truthy : Text → Bool
truthy s = not (is_empty s)

-- `s || t`.
unfoldable pub or_text : Text → Text → Text
or_text s t = if truthy s then s else t
