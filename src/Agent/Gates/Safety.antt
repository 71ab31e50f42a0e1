-- ===== src/Agent/Gates/Safety.antt =====
-- What a gate that passes says of the snapshot.
use dogos_memory.Agent.Gates.{
  Check, GateReport, Purpose, activate, activate_checks, all_checks, codes_of, common_checks,
  evaluate_gate, fault_checks, inspect, install, install_checks, service_checks,
}
use dogos_memory.Agent.Gates.Demands.{Demands}
use dogos_memory.Agent.Gates.Groups.{
  AllHold, activate_checks_iff, base_services_iff, common_checks_iff, fault_checks_iff,
  install_checks_iff, revision_checks_iff, service_checks_iff,
}
use dogos_memory.Base.{
  List, Option, Text, [], arith, false, leb, refl, some, sym, true, ℕ, ◌*◌, ◌++◌, ◌↔◌, ◌∙◌, ◌∷◌,
  ◌≡◌,
}
use dogos_memory.Memory.Models.{is_empty}
use dogos_memory.Value.{Value, one}

no_blockers-AllHold : (cs : List Check) → is_empty (codes_of false cs) ≡ true → AllHold cs
no_blockers-AllHold [] h = tt
no_blockers-AllHold ((true, code) ∷ cs) h = (refl, no_blockers-AllHold cs h)
no_blockers-AllHold ((false, code) ∷ cs) h = cc h

AllHold-no_blockers : (cs : List Check) → AllHold cs → is_empty (codes_of false cs) ≡ true
AllHold-no_blockers [] h = refl
AllHold-no_blockers ((true, code) ∷ cs) (_, h) = AllHold-no_blockers cs h
AllHold-no_blockers ((false, code) ∷ cs) (p, h) = cc p

AllHold-split : (cs ds : List Check) → AllHold (cs ++ ds) → AllHold cs × AllHold ds
AllHold-split [] ds h = (tt, h)
AllHold-split (c ∷ cs) ds (p, h) = let (x, y) = AllHold-split cs ds h in ((p, x), y)

AllHold-join : (cs ds : List Check) → AllHold cs → AllHold ds → AllHold (cs ++ ds)
AllHold-join [] ds h k = k
AllHold-join (c ∷ cs) ds (p, h) k = (p, AllHold-join cs ds h k)

evaluate_gate-inv :
    (s : Value) (purpose : Purpose) (revision : Option Text) (minimum : ℕ) {r : GateReport}
    → evaluate_gate s purpose revision minimum ≡ some r
    → (r.passes ≡ is_empty (codes_of false (all_checks purpose revision minimum s)))
      × (r.checks ≡ codes_of true (all_checks purpose revision minimum s))
      × (r.blockers ≡ codes_of false (all_checks purpose revision minimum s))
      × (leb minimum (100 * one) ≡ true)
unfolding evaluate_gate
evaluate_gate-inv s purpose revision minimum {r} h =
    (ground arith, ground arith, ground arith, ground arith)

all_checks_iff :
    (purpose : Purpose) (revision : Option Text) (minimum : ℕ) (s : Value)
    → AllHold (all_checks purpose revision minimum s) ↔ Demands purpose revision minimum s
unfolding all_checks
all_checks_iff inspect revision minimum s = (
  λ h.
      let (a, b) = AllHold-split (service_checks inspect s) (common_checks s ++ []) h in
      let (c, _) = AllHold-split (common_checks s) [] b in
      ((base_services_iff s).0 a, (common_checks_iff s).0 c),
  λ (a, c).
      AllHold-join (service_checks inspect s) (common_checks s ++ []) ((base_services_iff s).1 a)
        (AllHold-join (common_checks s) [] ((common_checks_iff s).1 c) tt),
)
all_checks_iff install revision minimum s = (
  λ h.
      let (a, b) =
        AllHold-split (service_checks install s)
          (common_checks s ++ (fault_checks s ++ install_checks s)) h in
      let (c, d) = AllHold-split (common_checks s) (fault_checks s ++ install_checks s) b in
      let (f, g) = AllHold-split (fault_checks s) (install_checks s) d in
      let (base, more) = (service_checks_iff s).0 a in
      (base, more, (common_checks_iff s).0 c, (fault_checks_iff s).0 f, (install_checks_iff s).0 g),
  λ (base, more, c, f, g).
      AllHold-join (service_checks install s)
        (common_checks s ++ (fault_checks s ++ install_checks s))
        ((service_checks_iff s).1 (base, more))
        (AllHold-join (common_checks s) (fault_checks s ++ install_checks s)
          ((common_checks_iff s).1 c)
          (AllHold-join (fault_checks s) (install_checks s) ((fault_checks_iff s).1 f)
            ((install_checks_iff s).1 g))),
)
all_checks_iff activate revision minimum s = (
  λ h.
      let acts = activate_checks revision minimum s in
      let (a, b) =
        AllHold-split (service_checks activate s) (common_checks s ++ (fault_checks s ++ acts)) h in
      let (c, d) = AllHold-split (common_checks s) (fault_checks s ++ acts) b in
      let (f, g) = AllHold-split (fault_checks s) acts d in
      let (base, more) = (service_checks_iff s).0 a in
      let (body, rest) = (activate_checks_iff revision minimum s).0 g in
      (
        base,
        more,
        (common_checks_iff s).0 c,
        (fault_checks_iff s).0 f,
        body,
        (revision_checks_iff revision s).0 rest,
      ),
  λ (base, more, c, f, body, state).
      let acts = activate_checks revision minimum s in
      AllHold-join (service_checks activate s) (common_checks s ++ (fault_checks s ++ acts))
        ((service_checks_iff s).1 (base, more))
        (AllHold-join (common_checks s) (fault_checks s ++ acts) ((common_checks_iff s).1 c) (
          AllHold-join (fault_checks s) acts ((fault_checks_iff s).1 f) (
            (activate_checks_iff revision minimum s).1
              (body, (revision_checks_iff revision s).1 state)))),
)

-- A report passes exactly if the snapshot meets every demand of its purpose: of an inspection its two
-- services and a body at rest; of an installation also the other services, no fault, and an agent that
-- can be installed; of an activation also the other services, no fault, a battery that is charged and
-- does not charge, an agent that can be woken, reached and heard, and the revision that is expected.
pub evaluate_gate-Demands :
    (s : Value) (purpose : Purpose) (revision : Option Text) (minimum : ℕ) {r : GateReport}
    → evaluate_gate s purpose revision minimum ≡ some r
    → (r.passes ≡ true) ↔ Demands purpose revision minimum s
evaluate_gate-Demands s purpose revision minimum {r} h =
    let (p, c, b, _) = evaluate_gate-inv s purpose revision minimum h in
    let cs = all_checks purpose revision minimum s in
    let demands = all_checks_iff purpose revision minimum s in
    (
      λ e. demands.0 (no_blockers-AllHold cs (sym p ∙ e)),
      λ d. p ∙ AllHold-no_blockers cs (demands.1 d),
    )
