-- ===== src/Rs232/Packet.antt =====
-- rs232_2400_protocol.c: the buffer behind `output`, and the switch of `rs232_2400_rsp_parse` that
-- hands a packet to the parser of the request.
use es_inverter.Base.{ℕ, Option, none, some, Bytes, ℤ}
use es_inverter.Rs232.Command.{
  Command, qpi, qid, qvfw, qvfw2, qvfw3, qpiri, qmd, qflag, qpigs, qmod, qgov, qgof, qopmp, qmpptv,
  qpvipv, qlst, qtpr, qdi2, qgltv, qdm, qpihf, qchgs, qpicf, qpiws,
}
use es_inverter.Rs232.Memory.{Outcome, done, fault}
use es_inverter.Rs232.Parsers.{
  Parsed, parse_rsp_qpi, parse_rsp_qid, parse_rsp_qvfw, parse_rsp_qmd, parse_rsp_qflag,
  parse_rsp_qmod,
}
use es_inverter.Rs232.Response.{
  QidResponse, Qdi2Response, QtprResponse, QgofResponse, QpiriResponse, QflagResponse,
  QpigsResponse, HiloVoltageResponse, QchgsResponse,
}
use es_inverter.Rs232.Scanf.{Scanf}
use es_inverter.Rs232.Scanned.{
  parse_rsp_qpiri, parse_rsp_qpigs, parse_rsp_qgov, parse_rsp_qgof, parse_rsp_qmpptv,
  parse_rsp_qpvipv, parse_rsp_qtpr, parse_rsp_qdi2, parse_rsp_qgltv, parse_rsp_qdm, parse_rsp_qchgs,
}
use es_inverter.Rs232.Words.{
  parse_rsp_qpiws, parse_rsp_qpicf, parse_rsp_qopmp, parse_rsp_qlst, parse_rsp_qpihf,
}

-- The buffer behind `output`, as the parser of each request sees it; `rejected` is its bytes, as many
-- as the caller's object has, into which a rejected packet is copied.
pub record Output (Float : Type 0) : Type 0 where
  pub number : ℕ
  pub max_output_power : ℤ
  pub model : Bytes
  pub rejected : Bytes
  pub qid_response : QidResponse
  pub qdi2_response : Qdi2Response Float
  pub qtpr_response : QtprResponse Float
  pub qgof_response : QgofResponse Float
  pub qpiri_response : QpiriResponse Float
  pub qflag_response : QflagResponse
  pub qpigs_response : QpigsResponse Float
  pub hilo_voltage_response : HiloVoltageResponse
  pub qchgs_response : QchgsResponse Float

abbrev pub into :
    {Float R : Type 0} → (R → Output Float) → Parsed R → Outcome (Option (ℤ × Output Float))
into put (done (status, r)) = done (some (status, put r))
into put fault = fault

module _ (libc : Scanf) where
  open libc use {Float}

  -- The switch on the request; `none` stands for its default, an unsupported request.
  unfoldable pub parse_packet :
      Option Command → Bytes → ℕ → Output Float → Outcome (Option (ℤ × Output Float))
  parse_packet (some qpi) mem len o =
      into (λ r. record o { number = r }) (parse_rsp_qpi mem len o.number)
  parse_packet (some qid) mem len o =
      into (λ r. record o { qid_response = r }) (parse_rsp_qid mem len o.qid_response)
  parse_packet (some qvfw) mem len o =
      into (λ r. record o { number = r }) (parse_rsp_qvfw mem len o.number)
  parse_packet (some qvfw2) mem len o =
      into (λ r. record o { number = r }) (parse_rsp_qvfw mem len o.number)
  parse_packet (some qvfw3) mem len o =
      into (λ r. record o { number = r }) (parse_rsp_qvfw mem len o.number)
  parse_packet (some qpiri) mem len o =
      into (λ r. record o { qpiri_response = r }) (parse_rsp_qpiri libc mem len o.qpiri_response)
  parse_packet (some qmd) mem len o =
      into (λ r. record o { model = r }) (parse_rsp_qmd mem len o.model)
  parse_packet (some qflag) mem len o =
      into (λ r. record o { qflag_response = r }) (parse_rsp_qflag mem len o.qflag_response)
  parse_packet (some qpigs) mem len o =
      into (λ r. record o { qpigs_response = r }) (parse_rsp_qpigs libc mem len o.qpigs_response)
  parse_packet (some qmod) mem len o =
      into (λ r. record o { number = r }) (parse_rsp_qmod mem len o.number)
  parse_packet (some qgov) mem len o =
      into (λ r. record o { hilo_voltage_response = r })
        (parse_rsp_qgov libc mem len o.hilo_voltage_response)
  parse_packet (some qgof) mem len o =
      into (λ r. record o { qgof_response = r }) (parse_rsp_qgof libc mem len o.qgof_response)
  parse_packet (some qopmp) mem len o =
      into (λ r. record o { max_output_power = r }) (parse_rsp_qopmp mem len o.max_output_power)
  parse_packet (some qmpptv) mem len o =
      into (λ r. record o { hilo_voltage_response = r })
        (parse_rsp_qmpptv libc mem len o.hilo_voltage_response)
  parse_packet (some qpvipv) mem len o =
      into (λ r. record o { hilo_voltage_response = r })
        (parse_rsp_qpvipv libc mem len o.hilo_voltage_response)
  parse_packet (some qlst) mem len o =
      into (λ r. record o { number = r }) (parse_rsp_qlst mem len o.number)
  parse_packet (some qtpr) mem len o =
      into (λ r. record o { qtpr_response = r }) (parse_rsp_qtpr libc mem len o.qtpr_response)
  parse_packet (some qdi2) mem len o =
      into (λ r. record o { qdi2_response = r }) (parse_rsp_qdi2 libc mem len o.qdi2_response)
  parse_packet (some qgltv) mem len o =
      into (λ r. record o { hilo_voltage_response = r })
        (parse_rsp_qgltv libc mem len o.hilo_voltage_response)
  parse_packet (some qdm) mem len o =
      into (λ r. record o { number = r }) (parse_rsp_qdm libc mem len o.number)
  parse_packet (some qpihf) mem len o =
      into (λ r. record o { number = r }) (parse_rsp_qpihf mem len o.number)
  parse_packet (some qchgs) mem len o =
      into (λ r. record o { qchgs_response = r }) (parse_rsp_qchgs libc mem len o.qchgs_response)
  parse_packet (some qpicf) mem len o =
      into (λ r. record o { number = r }) (parse_rsp_qpicf mem len o.number)
  parse_packet (some qpiws) mem len o =
      into (λ r. record o { number = r }) (parse_rsp_qpiws mem len o.number)
  parse_packet _ mem len o = done none
