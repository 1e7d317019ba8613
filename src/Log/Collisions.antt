-- ===== src/Log/Collisions.antt =====
-- The hash chain of common/log.cc where SHA1 has no collision: equal hashes, equal requests.
use specpaxos.Base.{ℕ, zero, suc, ◌/◌, ◌^◌, ◌<◌, ◌≡◌, refl, ap, List, length, All}
use specpaxos.Log.{Request, Log}
use specpaxos.Log.Chain.{low_bytes}

length-low_bytes : (n x : ℕ) → length (low_bytes n x) ≡ n
length-low_bytes zero x = refl
length-low_bytes (suc n) x = ap suc (length-low_bytes n (x / 256))

-- What the chain covers of a request, and that it fits the 64 bits that the code hashes.
abbrev pub Identity : Type 0
Identity = ℕ × ℕ

abbrev pub identity : Request → Identity
identity r = (r.clientid, r.clientreqid)

abbrev pub Fits : List Request → Type 0
Fits rs = All (λ (r : Request). (r.clientid < 256 ^ 8) × (r.clientreqid < 256 ^ 8)) rs
