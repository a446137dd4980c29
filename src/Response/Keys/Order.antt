-- ===== src/Response/Keys/Order.antt =====
-- The scalar of a value does not depend on the order of `range` inside it.
use kmp_issuer.Base.{◌≡◌, refl}
use kmp_issuer.Json.{Json}
use kmp_issuer.Json.Order.{SameDoc, same, same_arr, same_obj}
use kmp_issuer.Response.Keys.{scalar_string}

pub scalar_string-SameDoc : {d e : Json} → SameDoc d e → scalar_string d ≡ scalar_string e
unfolding scalar_string
scalar_string-SameDoc same = refl
scalar_string-SameDoc (same_arr h) = refl
scalar_string-SameDoc (same_obj h) = refl
