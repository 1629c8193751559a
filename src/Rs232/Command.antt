-- ===== src/Rs232/Command.antt =====
-- rs232_2400_protocol.h: the enumeration `em_rs232_2400_cmd_e` of requests and commands.
use es_inverter.Base.{ℕ, ◌≡◌, refl, List, [], ◌∷◌, Option, some, get_elem?}

pub data Command : Type 0 where
  no_command qpi qid qvfw qvfw2 qvfw3 qpiri qmd qflag qpigs : Command
  qmod qt qet qey qem qed qeh qgov qgof qopmp : Command
  qmpptv qpvipv qlst qtpr qdi2 qgltv qchgs qdm qvftr qpihf : Command
  qpicf qbsdv qprio qenf qebgp qopf qmdcc qpkt qldt qbsdp : Command
  qpigs2 qpiws qdi qmchgcr qmuchgcr qboot qopm qpgs son sof : Command
  pe pd pf f pop pbcv pbdv pcp pgr pbt : Command
  psdv pcvv pbft dat golf gohf golv gohv opmp mppthv : Command
  mpptlv pviphv pviplv lst mchgc mchgv bchgv glthv bsdv dsubv : Command
  prio enf lbf sopf smdcc abgp pkt ldt bsdp dmodel : Command
  pspb : Command

-- In the order of the enumeration.
abbrev commands : List Command
commands =
    no_command ∷ qpi ∷ qid ∷ qvfw ∷ qvfw2 ∷ qvfw3 ∷ qpiri ∷ qmd ∷ qflag ∷ qpigs ∷ qmod ∷ qt ∷ qet
    ∷ qey ∷ qem ∷ qed ∷ qeh ∷ qgov ∷ qgof ∷ qopmp ∷ qmpptv ∷ qpvipv ∷ qlst ∷ qtpr ∷ qdi2 ∷ qgltv
    ∷ qchgs ∷ qdm ∷ qvftr ∷ qpihf ∷ qpicf ∷ qbsdv ∷ qprio ∷ qenf ∷ qebgp ∷ qopf ∷ qmdcc ∷ qpkt
    ∷ qldt ∷ qbsdp ∷ qpigs2 ∷ qpiws ∷ qdi ∷ qmchgcr ∷ qmuchgcr ∷ qboot ∷ qopm ∷ qpgs ∷ son ∷ sof
    ∷ pe ∷ pd ∷ pf ∷ f ∷ pop ∷ pbcv ∷ pbdv ∷ pcp ∷ pgr ∷ pbt ∷ psdv ∷ pcvv ∷ pbft ∷ dat ∷ golf
    ∷ gohf ∷ golv ∷ gohv ∷ opmp ∷ mppthv ∷ mpptlv ∷ pviphv ∷ pviplv ∷ lst ∷ mchgc ∷ mchgv ∷ bchgv
    ∷ glthv ∷ bsdv ∷ dsubv ∷ prio ∷ enf ∷ lbf ∷ sopf ∷ smdcc ∷ abgp ∷ pkt ∷ ldt ∷ bsdp ∷ dmodel
    ∷ pspb ∷ []

-- An enumerator's value is its place.
unfoldable pub code : Command → ℕ
code no_command = 0
code qpi = 1
code qid = 2
code qvfw = 3
code qvfw2 = 4
code qvfw3 = 5
code qpiri = 6
code qmd = 7
code qflag = 8
code qpigs = 9
code qmod = 10
code qt = 11
code qet = 12
code qey = 13
code qem = 14
code qed = 15
code qeh = 16
code qgov = 17
code qgof = 18
code qopmp = 19
code qmpptv = 20
code qpvipv = 21
code qlst = 22
code qtpr = 23
code qdi2 = 24
code qgltv = 25
code qchgs = 26
code qdm = 27
code qvftr = 28
code qpihf = 29
code qpicf = 30
code qbsdv = 31
code qprio = 32
code qenf = 33
code qebgp = 34
code qopf = 35
code qmdcc = 36
code qpkt = 37
code qldt = 38
code qbsdp = 39
code qpigs2 = 40
code qpiws = 41
code qdi = 42
code qmchgcr = 43
code qmuchgcr = 44
code qboot = 45
code qopm = 46
code qpgs = 47
code son = 48
code sof = 49
code pe = 50
code pd = 51
code pf = 52
code f = 53
code pop = 54
code pbcv = 55
code pbdv = 56
code pcp = 57
code pgr = 58
code pbt = 59
code psdv = 60
code pcvv = 61
code pbft = 62
code dat = 63
code golf = 64
code gohf = 65
code golv = 66
code gohv = 67
code opmp = 68
code mppthv = 69
code mpptlv = 70
code pviphv = 71
code pviplv = 72
code lst = 73
code mchgc = 74
code mchgv = 75
code bchgv = 76
code glthv = 77
code bsdv = 78
code dsubv = 79
code prio = 80
code enf = 81
code lbf = 82
code sopf = 83
code smdcc = 84
code abgp = 85
code pkt = 86
code ldt = 87
code bsdp = 88
code dmodel = 89
code pspb = 90

-- The command that a request identifier stands for, if any.
unfoldable pub of_code : ℕ → Option Command
of_code n = get_elem? commands n

-- Every command is found again by its value.
pub of_code-code : (c : Command) → of_code (code c) ≡ some c
unfolding of_code code
of_code-code no_command = refl
of_code-code _ = refl
