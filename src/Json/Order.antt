-- ===== src/Json/Order.antt =====
-- Two documents that differ only in the order in which `range` visits the entries of their maps.
use kmp_issuer.Base.{◌≢◌}
use kmp_issuer.Text.{Bytes}
use kmp_issuer.Json.{Json, arr, obj, Items, nil, cons, Fields, end, field}

mutual
  pub data SameDoc : Json → Json → Type 0 where
    same : {d : Json} → SameDoc d d
    same_arr : {xs ys : Items} → SameItems xs ys → SameDoc (arr xs) (arr ys)
    same_obj : {fs gs : Fields} → SameFields fs gs → SameDoc (obj fs) (obj gs)

  pub data SameItems : Items → Items → Type 0 where
    same_nil : SameItems nil nil
    same_cons :
        {v w : Json} {xs ys : Items}
        → SameDoc v w
        → SameItems xs ys
        → SameItems (cons v xs) (cons w ys)

  pub data SameFields : Fields → Fields → Type 0 where
    same_end : SameFields end end
    same_field :
        {k : Bytes} {v w : Json} {fs gs : Fields}
        → SameDoc v w
        → SameFields fs gs
        → SameFields (field k v fs) (field k w gs)
    -- The keys of a map are distinct, so two entries that change places have different keys.
    swap :
        {k j : Bytes} {v w : Json} {fs : Fields}
        → k ≢ j
        → SameFields (field k v (field j w fs)) (field j w (field k v fs))
    both : {fs gs hs : Fields} → SameFields fs gs → SameFields gs hs → SameFields fs hs
