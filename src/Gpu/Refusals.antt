-- ===== src/Gpu/Refusals.antt =====
-- The table of errors, read backwards.
use hack_ef3da0e3_aib2bsaass.Base.{ℕ, ◌≡◌, ◌≤◌, ◌⊎◌, ◌↔◌, arith, Option, none, some}
use hack_ef3da0e3_aib2bsaass.Store.World.{DomainCode, gpu_domain, gpu_unavailable}
use hack_ef3da0e3_aib2bsaass.Gpu.{status_of, listed, refusal}

-- An answer of an unexpected status is a domain error of that status and code exactly where the code
-- is known and listed under the status; it is unavailability exactly for 401 and from 500 on.
pub refusal_lem :
    (status : ℕ) (code : Option DomainCode) (c : DomainCode)
    → ((refusal status code ≡ gpu_domain status c) ↔ ((code ≡ some c) × (status ≡ status_of c)))
      × ((refusal status code ≡ gpu_unavailable) ↔ ((status ≡ 401) ⊎ (500 ≤ status)))
unfolding refusal listed status_of
refusal_lem status none c = (ground arith, ground arith)
refusal_lem status (some d) c = (ground arith, ground arith)
