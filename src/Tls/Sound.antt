-- ===== src/Tls/Sound.antt =====
-- `pk_tls_clienthello_parse` as a whole: benchmarks/industry/tls_clienthello/gen/parser.c and parser.bpf.c.
use pakeles.Base.{ℕ, ◌+◌, ◌*◌, ◌^◌, ◌≤◌, ◌<◌, ◌≡◌, refl, List, length}
use pakeles.Core.{portable, masked, buf_mask}
use pakeles.Safety.{
  ReturnsSound, run_core-ReturnsSound, run_core-unmasked, portable-Fits, masked-Fits,
}
use pakeles.Tls.Types.{zero_body, reason_str, s_record}
use pakeles.Tls.Parse.{max_depth, tls_clienthello_parse_core, tls_clienthello_parse}
use pakeles.Tls.Cases.{named, depth_of, step-Triple}

-- `pk_tls_clienthello_parse` on a buffer that holds `bit_len` bits, with 64 to spare in a `uint64_t`: it
-- returns, never reading outside the buffer or an element of an array that was not written, and
-- either accepts with reason 0 or rejects with a reason that `reason_str` has words for; it has
-- consumed no more bits than there are.
pub tls_clienthello_parse-ReturnsSound :
    (buf : List ℕ) (bit_len : ℕ)
    → bit_len ≤ 8 * length buf
    → bit_len + 64 < 2 ^ 64
    → ReturnsSound named bit_len (tls_clienthello_parse buf bit_len)
unfolding tls_clienthello_parse tls_clienthello_parse_core reason_str
tls_clienthello_parse-ReturnsSound buf bit_len held word =
    run_core-ReturnsSound 8 named depth_of step-Triple refl max_depth s_record refl
      (portable buf bit_len) zero_body (portable-Fits buf bit_len held word)

-- `pk_tls_clienthello_parse_core` of parser.bpf.c, whose packet indices are masked, returns the result of
-- parser.c, on every packet of at most `PK_BUF_MASK + 1` bytes.
pub tls_clienthello_parse_core-masked :
    (buf : List ℕ) (bit_len : ℕ)
    → bit_len ≤ 8 * length buf
    → bit_len ≤ 8 * (buf_mask + 1)
    → tls_clienthello_parse_core (masked buf bit_len) ≡ tls_clienthello_parse buf bit_len
unfolding tls_clienthello_parse tls_clienthello_parse_core reason_str
tls_clienthello_parse_core-masked buf bit_len held short =
    run_core-unmasked 8 named depth_of step-Triple refl max_depth s_record refl (masked buf bit_len)
      zero_body (masked-Fits buf bit_len held short)
