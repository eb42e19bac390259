-- ===== src/Ports/Json.antt =====
-- A value of JSON, as `JSON.parse` makes it: an object has each key once, in the order of
-- `Object.keys`.
use ebnf.Base.{
  Bool, true, false, not, ◌&&◌, Option, none, some, List, [], ◌∷◌, if◌then◌else◌, Text, text_eq,
  is_space, all,
}

mutual
  pub data Json : Type 0 where
    null : Json
    boolean : Bool → Json
    number : Text → Json
    string : Text → Json
    array : Items → Json
    object : Members → Json

  pub data Items : Type 0 where
    end : Items
    item : Json → Items → Items

  pub data Members : Type 0 where
    nothing : Members
    member : Text → Json → Members → Members

-- `Object.keys(obj)`
unfoldable pub keys : Members → List Text
keys nothing = []
keys (member key value ms) = key ∷ keys ms

-- `obj[key]`, if it is a property of the object's own.
unfoldable pub lookup : Text → Members → Option Json
unfolding text_eq
lookup key nothing = none
lookup key (member k value ms) = if text_eq key k then some value else lookup key ms

-- `own(obj, key)`
unfoldable pub own : Members → Text → Bool
unfolding lookup
own ms key = elim (lookup key ms) [ none ↦ false | some _ ↦ true ]

-- Is the value an array of just these strings? This is what equal texts of `JSON.stringify` come to.
unfoldable pub is_texts : Items → List Text → Bool
unfolding text_eq
is_texts end [] = true
is_texts (item (string t) items) (u ∷ us) = text_eq t u && is_texts items us
is_texts _ _ = false

unfoldable pub is_list : Option Json → List Text → Bool
unfolding is_texts
is_list (some (array items)) texts = is_texts items texts
is_list _ texts = false

-- `'string' === typeof val && '' !== val.trim()`
unfoldable pub is_filled : Option Json → Bool
is_filled (some (string t)) = not (all is_space t)
is_filled _ = false
