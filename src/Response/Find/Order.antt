-- ===== src/Response/Find/Order.antt =====
-- What `findString` answers under different orders of `range`.
use kmp_issuer.Base.{
  ℕ, ◌+◌, ◌≤◌, ◌≡◌, refl, ◌≢◌, ap₂, ◌∙◌, true, List, Option, none, some, arith, if◌then◌else◌,
}
use kmp_issuer.Text.{Bytes, Unicode}
use kmp_issuer.Text.Order.{insert, insert_comm, sort_by_key}
use kmp_issuer.Json.{Json, null, boolean, num, str, arr, obj, Items, nil, cons, Fields, end, field}
use kmp_issuer.Json.Order.{
  SameDoc, same, same_arr, same_obj, SameItems, same_nil, same_cons, SameFields, same_end,
  same_field, swap, both,
}
use kmp_issuer.Response.Keys.{is_wanted, scalar_string, wanted_keys}
use kmp_issuer.Response.Keys.Order.{scalar_string-SameDoc}
use kmp_issuer.Response.Find.{
  find_here, first_found, find_scalar, find_fields, find_items, find_string,
}

module _ (u : Unicode) (wanted : List Bytes) where
  -- One if the entry answers the search at its own level.
  unfoldable pub hit : Bytes → Json → ℕ
  hit key value =
      if is_wanted u wanted key then elim (scalar_string value) [ some s ↦ 1 | none ↦ 0 ] else 0

  unfoldable pub hits : Fields → ℕ
  hits end = 0
  hits (field key value fs) = hit key value + hits fs

  -- No map of the document has two entries that answer the search at their level.
  unfoldable mutual
    pub IsClear : Json → Type 0
    IsClear (obj fs) = (hits fs ≤ 1) × IsClearFields fs
    IsClear (arr items) = IsClearItems items
    IsClear null = Unit
    IsClear (boolean b) = Unit
    IsClear (num n) = Unit
    IsClear (str s) = Unit

    pub IsClearItems : Items → Type 0
    IsClearItems nil = Unit
    IsClearItems (cons v items) = IsClear v × IsClearItems items

    pub IsClearFields : Fields → Type 0
    IsClearFields end = Unit
    IsClearFields (field k v fs) = IsClear v × IsClearFields fs

  hit-SameDoc : (k : Bytes) {v w : Json} → SameDoc v w → hit k v ≡ hit k w
  unfolding hit
  hit-SameDoc k h = rw (scalar_string-SameDoc h, hit)

  hits-SameFields : {fs gs : Fields} → SameFields fs gs → hits fs ≡ hits gs
  unfolding hits
  hits-SameFields same_end = refl
  hits-SameFields (same_field {k} h r) = ap₂ ◌+◌ (hit-SameDoc k h) (hits-SameFields r)
  hits-SameFields (swap ne) = omega arith
  hits-SameFields (both h r) = hits-SameFields h ∙ hits-SameFields r

  mutual
    unfolding IsClear

    IsClear-SameDoc : {d e : Json} → SameDoc d e → IsClear d → IsClear e
    IsClear-SameDoc same c = c
    IsClear-SameDoc (same_arr h) c = IsClearItems-SameItems h c
    IsClear-SameDoc (same_obj h) c =
        (omega (arith, c.0, hits-SameFields h), IsClearFields-SameFields h c.1)

    IsClearItems-SameItems : {xs ys : Items} → SameItems xs ys → IsClearItems xs → IsClearItems ys
    IsClearItems-SameItems same_nil c = c
    IsClearItems-SameItems (same_cons h r) c = (IsClear-SameDoc h c.0, IsClearItems-SameItems r c.1)

    IsClearFields-SameFields :
        {fs gs : Fields} → SameFields fs gs → IsClearFields fs → IsClearFields gs
    IsClearFields-SameFields same_end c = c
    IsClearFields-SameFields (same_field h r) c =
        (IsClear-SameDoc h c.0, IsClearFields-SameFields r c.1)
    IsClearFields-SameFields (swap ne) (a, (b, c)) = (b, (a, c))
    IsClearFields-SameFields (both h r) c =
        IsClearFields-SameFields r (IsClearFields-SameFields h c)

  find_here-SameFields :
      {fs gs : Fields}
      → SameFields fs gs
      → hits fs ≤ 1
      → find_here u wanted fs ≡ find_here u wanted gs
  unfolding find_here hits hit
  find_here-SameFields same_end c = refl
  find_here-SameFields (same_field {k} {v} {w} {fs} h r) c =
      ground (arith, scalar_string-SameDoc h, find_here-SameFields r)
  find_here-SameFields (swap ne) c = ground arith
  find_here-SameFields (both h r) c =
      find_here-SameFields h c ∙ find_here-SameFields r (omega (arith, hits-SameFields h))

  abbrev or_deeper : Option Bytes → List (Bytes × Option Bytes) → Option Bytes
  or_deeper found deep = elim found [ some s ↦ some s | none ↦ first_found deep ]

  abbrev or_later : Option Bytes → Option Bytes → Option Bytes
  or_later found rest = elim found [ some s ↦ some s | none ↦ rest ]

  mutual
    unfolding find_scalar IsClear sort_by_key

    find_scalar-SameDoc :
        {d e : Json} → SameDoc d e → IsClear d → find_scalar u wanted d ≡ find_scalar u wanted e
    find_scalar-SameDoc same c = refl
    find_scalar-SameDoc (same_arr h) c = find_items-SameItems h c
    find_scalar-SameDoc (same_obj h) c =
        ap₂ or_deeper (find_here-SameFields h c.0) (sort-find_fields h c.1)

    find_items-SameItems :
        {xs ys : Items}
        → SameItems xs ys
        → IsClearItems xs
        → find_items u wanted xs ≡ find_items u wanted ys
    find_items-SameItems same_nil c = refl
    find_items-SameItems (same_cons h r) c =
        ap₂ or_later (find_scalar-SameDoc h c.0) (find_items-SameItems r c.1)

    sort-find_fields :
        {fs gs : Fields}
        → SameFields fs gs
        → IsClearFields fs
        → sort_by_key (find_fields u wanted fs) ≡ sort_by_key (find_fields u wanted gs)
    sort-find_fields same_end c = refl
    sort-find_fields (same_field {k} h r) c =
        ap₂ (insert k) (find_scalar-SameDoc h c.0) (sort-find_fields r c.1)
    sort-find_fields (swap {k} {j} ne) c = insert_comm k j _ _ _ ne
    sort-find_fields (both h r) c =
        sort-find_fields h c ∙ sort-find_fields r (IsClearFields-SameFields h c)

-- On a document in which no map has two entries that answer the search at their own level, the
-- answer of `findString` does not depend on the order in which `range` visits the entries.
pub find_string-SameDoc :
    (u : Unicode) (keys : List Bytes) {d e : Json}
    → SameDoc d e
    → IsClear u (wanted_keys u keys) d
    → find_string u d keys ≡ find_string u e keys
unfolding find_string
find_string-SameDoc u keys h c = find_scalar-SameDoc u (wanted_keys u keys) h c

-- Where two entries of a map stand under names that are both searched for, and their values are
-- scalars `a` and `b`, each of the two is an answer: `findString` returns `a` if `range` visits the
-- first entry before the second and all others, and `b` if it visits the second before the first.
pub find_string_ambiguous :
    (u : Unicode) (keys : List Bytes) (k j : Bytes) (v w : Json) (fs : Fields) (a b : Bytes)
    → k ≢ j
    → is_wanted u (wanted_keys u keys) k ≡ true
    → is_wanted u (wanted_keys u keys) j ≡ true
    → scalar_string v ≡ some a
    → scalar_string w ≡ some b
    → let first = obj (field k v (field j w fs)) in
      let second = obj (field j w (field k v fs)) in
      SameDoc first second
      × (find_string u first keys ≡ some a)
      × (find_string u second keys ≡ some b)
unfolding find_string find_scalar find_here
find_string_ambiguous u keys k j v w fs a b ne hk hj ha hb =
    (same_obj (swap ne), ground arith, ground arith)
