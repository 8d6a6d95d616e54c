-- ===== src/Client/Upload/Cut.antt =====
-- Where a chunk ends, and the string that is sent for it.
use velox_dfs.Base.{
  ℕ, zero, suc, ◌+◌, ◌-◌, ◌%◌, ◌^◌, ◌≤◌, ◌<◌, min, ◌≡◌, refl, true, false, [], ◌∷◌, ◌++◌, some,
  Text, IsZeroFree, length, replicate, le→leb, ◌==◌, ◌>>=◌, arith,
}
use velox_dfs.Client.Upload.{Job, block_end, c_string, first_newline, block_content}

c_string-zeros : (n : ℕ) (s : Text) → c_string (replicate n 0 ++ (0 ∷ s)) ≡ some []
unfolding c_string
c_string-zeros zero s = refl
c_string-zeros (suc n) s = refl

c_string-append : (s z : Text) → IsZeroFree s → c_string z ≡ some [] → c_string (s ++ z) ≡ some s
unfolding c_string
c_string-append [] z h e = e
c_string-append (c ∷ s) z h e =
    let solid : (c == 0) ≡ false = ground (arith, h.0) in
    rw (solid, c_string-append s z h.1 e, ◌>>=◌) refl

pub block_content_lem :
    (job : Job) (s behind : Text)
    → IsZeroFree s
    → length s ≤ job.block_size
    → job.behind ≡ 0 ∷ behind
    → block_content job s ≡ some s
unfolding block_content
block_content_lem job s behind h fits e =
    let small = le→leb (length s) job.block_size fits in
    let zeros = c_string-zeros (job.block_size - length s) behind in
    rw (small, e)
      (c_string-append s (replicate (job.block_size - length s) 0 ++ (0 ∷ behind)) h zeros)

-- A chunk of an upload in equal-sized blocks.
pub equal_end :
    (job : Job) (start : ℕ)
    → job.is_equal_sized ≡ true
    → length job.bytes + job.block_size < 2 ^ 63
    → start ≤ length job.bytes
    → block_end job start ≡ some (min (start + job.block_size) (length job.bytes))
unfolding block_end
equal_end job start equal small h =
    let e : (start + job.block_size) % 2 ^ 64 ≡ start + job.block_size = omega arith in
    rw (e, equal) (ground arith)

pub equal_newline : (job : Job) (i : ℕ) → job.is_equal_sized ≡ true → first_newline job i ≡ []
unfolding first_newline
equal_newline job i equal = rw equal (ground arith)
