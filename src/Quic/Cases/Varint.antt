-- ===== src/Quic/Cases/Varint.antt =====
-- The rules of `Safety` at the cases of quic_initial in Quic/Varint.antt.
use pakeles.Base.{refl, arith, ◌==◌}
use pakeles.Safety.{
  Triple, Triple-pure, Triple-accept, Triple-reject, Triple-if, Triple-store, Triple-fetch, ◌⨾◌,
  ◌▸◌, Triple-bytes, Triple-bits, Triple-run_of,
}
use pakeles.Quic.Types.{
  parse_len_lead, tok_w1, tok_w2, tok_w4, tok_w8, len_w1, len_w2, len_w4, len_w8, unreachable,
  reason_str,
}
use pakeles.Quic.Varint.{
  case_parse_tok_lead, case_tok_w1, case_tok_w2, case_tok_w4, case_tok_w8, case_parse_len_lead,
  case_len_w1, case_len_w2, case_len_w4, case_len_w8,
}
use pakeles.Quic.Cases.Depths.{named, depth_of, names}

pub case_parse_tok_lead-Triple : Triple 0 named 0 case_parse_tok_lead depth_of
unfolding case_parse_tok_lead reason_str
case_parse_tok_lead-Triple =
    Triple-store _
    ▸ Triple-bits _ _ (omega arith)
    ▸ Triple-bits _ _ (omega arith)
    ▸ Triple-fetch _
    ⨾ λ key0. Triple-if (key0 == 0) (Triple-pure tok_w1 refl) (
        Triple-if (key0 == 1) (Triple-pure tok_w2 refl) (
          Triple-if (key0 == 2) (Triple-pure tok_w4 refl)
            (Triple-if (key0 == 3) (Triple-pure tok_w8 refl) (Triple-reject unreachable refl))))

pub case_tok_w1-Triple : Triple 0 named 0 case_tok_w1 depth_of
unfolding case_tok_w1
case_tok_w1-Triple = Triple-store _ ▸ Triple-fetch _ ⨾ λ vlen.
    Triple-run_of vlen _ ▸ Triple-store _ ▸ Triple-pure parse_len_lead refl

pub case_tok_w2-Triple : Triple 0 named 0 case_tok_w2 depth_of
unfolding case_tok_w2
case_tok_w2-Triple = Triple-store _ ▸ Triple-bytes _ _ (omega arith) ▸ Triple-fetch _ ⨾ λ vlen.
    Triple-run_of vlen _ ▸ Triple-store _ ▸ Triple-pure parse_len_lead refl

pub case_tok_w4-Triple : Triple 0 named 0 case_tok_w4 depth_of
unfolding case_tok_w4
case_tok_w4-Triple = Triple-store _ ▸ Triple-bytes _ _ (omega arith) ▸ Triple-fetch _ ⨾ λ vlen.
    Triple-run_of vlen _ ▸ Triple-store _ ▸ Triple-pure parse_len_lead refl

pub case_tok_w8-Triple : Triple 0 named 0 case_tok_w8 depth_of
unfolding case_tok_w8
case_tok_w8-Triple = Triple-store _ ▸ Triple-bytes _ _ (omega arith) ▸ Triple-fetch _ ⨾ λ vlen.
    Triple-run_of vlen _ ▸ Triple-store _ ▸ Triple-pure parse_len_lead refl

pub case_parse_len_lead-Triple : Triple 0 named 0 case_parse_len_lead depth_of
unfolding case_parse_len_lead reason_str
case_parse_len_lead-Triple =
    Triple-store _
    ▸ Triple-bits _ _ (omega arith)
    ▸ Triple-bits _ _ (omega arith)
    ▸ Triple-fetch _
    ⨾ λ key0. Triple-if (key0 == 0) (Triple-pure len_w1 refl) (
        Triple-if (key0 == 1) (Triple-pure len_w2 refl) (
          Triple-if (key0 == 2) (Triple-pure len_w4 refl)
            (Triple-if (key0 == 3) (Triple-pure len_w8 refl) (Triple-reject unreachable refl))))

pub case_len_w1-Triple : Triple 0 named 0 case_len_w1 depth_of
unfolding case_len_w1
case_len_w1-Triple = Triple-store _ ▸ Triple-accept

pub case_len_w2-Triple : Triple 0 named 0 case_len_w2 depth_of
unfolding case_len_w2
case_len_w2-Triple =
    Triple-store _ ▸ Triple-bytes _ _ (omega arith) ▸ Triple-store _ ▸ Triple-accept

pub case_len_w4-Triple : Triple 0 named 0 case_len_w4 depth_of
unfolding case_len_w4
case_len_w4-Triple =
    Triple-store _ ▸ Triple-bytes _ _ (omega arith) ▸ Triple-store _ ▸ Triple-accept

pub case_len_w8-Triple : Triple 0 named 0 case_len_w8 depth_of
unfolding case_len_w8
case_len_w8-Triple =
    Triple-store _ ▸ Triple-bytes _ _ (omega arith) ▸ Triple-store _ ▸ Triple-accept
