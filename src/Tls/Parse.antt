-- ===== src/Tls/Parse.antt =====
-- `parse_core` of benchmarks/industry/tls_clienthello/gen/parser.c and the function around it.
use pakeles.Base.{ℕ, List, Option}
use pakeles.Core.{Input, M, Result, run_core, portable, statements}
use pakeles.Tls.Types.{
  Body, zero_body, State, s_record, s_recver, s_hs, s_fixed, s_sid_len, s_sid, s_cs_len,
  s_cs_parity, s_cs, s_comp_len, s_comp, s_ext_check, s_ext_len, s_tlv, s_ext, s_skip, s_sni,
  s_sni_list, s_sni_entry, s_host, s_done, s_done_noext,
}
use pakeles.Tls.Record.{case_s_record, case_s_recver, case_s_hs, case_s_fixed}
use pakeles.Tls.Vectors.{
  case_s_sid_len, case_s_sid, case_s_cs_len, case_s_cs_parity, case_s_cs, case_s_comp_len,
  case_s_comp,
}
use pakeles.Tls.Extensions.{
  case_s_ext_check, case_s_ext_len, case_s_tlv, case_s_ext, case_s_skip, case_s_done,
  case_s_done_noext,
}
use pakeles.Tls.ServerName.{case_s_sni, case_s_sni_list, case_s_sni_entry, case_s_host}

-- `switch (state)`
unfoldable pub step : State → M Body State
step s_record = case_s_record
step s_recver = case_s_recver
step s_hs = case_s_hs
step s_fixed = case_s_fixed
step s_sid_len = case_s_sid_len
step s_sid = case_s_sid
step s_cs_len = case_s_cs_len
step s_cs_parity = case_s_cs_parity
step s_cs = case_s_cs
step s_comp_len = case_s_comp_len
step s_comp = case_s_comp
step s_ext_check = case_s_ext_check
step s_ext_len = case_s_ext_len
step s_tlv = case_s_tlv
step s_ext = case_s_ext
step s_skip = case_s_skip
step s_sni = case_s_sni
step s_sni_list = case_s_sni_list
step s_sni_entry = case_s_sni_entry
step s_host = case_s_host
step s_done = case_s_done
step s_done_noext = case_s_done_noext

-- the bound of the loop
abbrev pub max_depth : ℕ
max_depth = 96

-- `pk_tls_clienthello_parse_core`, called with `*out` zeroed
unfoldable pub tls_clienthello_parse_core : Input → Option (Result Body)
tls_clienthello_parse_core i = run_core step max_depth s_record 8 i zero_body

-- `pk_tls_clienthello_parse`
unfoldable pub tls_clienthello_parse : List ℕ → ℕ → Option (Result Body)
tls_clienthello_parse buf bit_len = tls_clienthello_parse_core (portable buf bit_len)

-- For tests: a line `unfolding running` opens all that a run computes with.
unfoldable pub running : Unit {0}
unfolding statements run_core step tls_clienthello_parse_core tls_clienthello_parse case_s_record
    case_s_recver case_s_hs case_s_fixed case_s_sid_len case_s_sid case_s_cs_len case_s_cs_parity
    case_s_cs case_s_comp_len case_s_comp case_s_ext_check case_s_ext_len case_s_tlv case_s_ext
    case_s_skip case_s_sni case_s_sni_list case_s_sni_entry case_s_host case_s_done
    case_s_done_noext
running = tt
