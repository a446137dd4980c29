-- ===== src/Response/Status/Bounds.antt =====
-- How much of a body is recorded.
use kmp_issuer.Base.{ℕ, ◌+◌, ◌≤◌, arith, length, length-append, take, length-take}
use kmp_issuer.Text.{Bytes, codes, trim_space}
use kmp_issuer.Response.Status.{truncate}

-- However long a text is, `truncate` keeps at most `max` of its bytes and the 15 of its mark.
length-truncate-le : (s : Bytes) (max : ℕ) → length (truncate s max) ≤ max + 15
unfolding truncate
length-truncate-le s max =
    let s' = trim_space s in
    ground (arith, length-append (take max s') (codes "... (truncated)"), length-take max s')
