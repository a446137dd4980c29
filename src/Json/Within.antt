-- ===== src/Json/Within.antt =====
-- The maps of a document and their entries, as relations.
use kmp_issuer.Text.{Bytes}
use kmp_issuer.Json.{Json, arr, obj, Items, cons, Fields, field}

-- The entry `k`, `v` is one of the map.
pub data HasField (k : Bytes) (v : Json) : Fields → Type 0 where
  first : {fs : Fields} → HasField k v (field k v fs)
  later : {j : Bytes} {w : Json} {fs : Fields} → HasField k v fs → HasField k v (field j w fs)

pub data HasItem (v : Json) : Items → Type 0 where
  head : {xs : Items} → HasItem v (cons v xs)
  next : {w : Json} {xs : Items} → HasItem v xs → HasItem v (cons w xs)

-- The map stands somewhere in the document.
pub data Within (r : Fields) : Json → Type 0 where
  whole_doc : Within r (obj r)
  in_field : (k : Bytes) (v : Json) {fs : Fields} → HasField k v fs → Within r v → Within r (obj fs)
  in_item : (v : Json) {xs : Items} → HasItem v xs → Within r v → Within r (arr xs)
