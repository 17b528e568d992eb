-- ===== src/Metrics/Init/Ready.antt =====
-- What Init registers, and that counting is enabled only when its counters are set.
use free5gc_workspace.Prelude.{
  ◌≡◌, refl, ap, sym, ◌∙◌, Bool, true, false, ◌||◌, List, [], ◌∷◌, ◌++◌, Option,
}
use free5gc_workspace.Prelude.Outcome.{returns, ◌>>=◌}
use free5gc_workspace.Text.Decimal.{Bytes}
use free5gc_workspace.Metrics.Init.{
  Globals, InitMetrics, sbi, nas, ngap, Collector, init_customs, add_sbi_to_registry,
  add_nas_to_registry, add_ngap_to_registry, get_nas_handler_metrics, get_ngap_handler_metrics,
  when, enable_business, init,
}
use free5gc_workspace.Metrics.Init.Plan.{
  nothing, sbi_vecs, customs_plan, part, plan, set_business, set_sbi, set_nas, set_ngap, enabled,
  register_all, >>=-assoc, init_customs_lem, Does, Does-then, sbi_Does, nas_Does, ngap_Does,
}

-- A counter that is enabled is set.
abbrev pub IsReady : Globals → Type 0
IsReady g =
    (g.sbi_enabled ≡ true → (g.sbi_outbound_set ≡ true) × (g.sbi_inbound_set ≡ true))
    × (g.nas_enabled ≡ true → g.nas_set ≡ true)
    × (g.ngap_enabled ≡ true → g.ngap_set ≡ true)

business_lem :
    {C R : Type 0} (register : Option Bytes → Collector C → R → Option R) (cs : List (List C))
    (g : Globals)
    → enable_business register cs g ≡ set_business cs g
unfolding enable_business
business_lem register [] g = refl
business_lem register (c ∷ cs) g = refl

set_sbi-IsReady : (b : Bool) (g : Globals) → IsReady g → IsReady (set_sbi b g)
unfolding set_sbi
set_sbi-IsReady false g h = h
set_sbi-IsReady true g h = (λ _. (refl, refl), h.1, h.2)

set_nas-IsReady : (b : Bool) (g : Globals) → IsReady g → IsReady (set_nas b g)
unfolding set_nas
set_nas-IsReady false g h = h
set_nas-IsReady true g h = (h.0, λ _. refl, h.2)

set_ngap-IsReady : (b : Bool) (g : Globals) → IsReady g → IsReady (set_ngap b g)
unfolding set_ngap
set_ngap-IsReady false g h = h
set_ngap-IsReady true g h = (h.0, h.1, λ _. refl)

set_business-IsReady :
    {C : Type 0} (cs : List (List C)) (g : Globals) → IsReady g → IsReady (set_business cs g)
set_business-IsReady [] g h = h
set_business-IsReady (c ∷ cs) g h = h

-- The flags of the types after the changes.
abbrev pub Flags : (a b c : Bool) (g g' : Globals) → Type 0
Flags a b c g g' =
    (g'.sbi_enabled ≡ (a || g.sbi_enabled))
    × (g'.nas_enabled ≡ (b || g.nas_enabled))
    × (g'.ngap_enabled ≡ (c || g.ngap_enabled))

Flags-set : (a b c : Bool) (g : Globals) → Flags a b c g (set_ngap c (set_nas b (set_sbi a g)))
unfolding set_sbi set_nas set_ngap
Flags-set false false false g = (refl, refl, refl)
Flags-set false false true g = (refl, refl, refl)
Flags-set false true false g = (refl, refl, refl)
Flags-set false true true g = (refl, refl, refl)
Flags-set true false false g = (refl, refl, refl)
Flags-set true false true g = (refl, refl, refl)
Flags-set true true false g = (refl, refl, refl)
Flags-set true true true g = (refl, refl, refl)

Flags-set_business :
    {C : Type 0} (cs : List (List C)) (a b c : Bool) (g : Globals)
    → Flags a b c g (set_ngap c (set_nas b (set_sbi a (set_business cs g))))
Flags-set_business [] a b c g = Flags-set a b c g
Flags-set_business (x ∷ cs) a b c g = Flags-set a b c (record g { business_enabled = true })

module _ {C R : Type 0} (register : Option Bytes → Collector C → R → Option R) where
  customs_Does :
      (cs : List (List C))
      → Does register
          (λ x. init_customs register cs x.1 >>= λ reg'.
            returns (enable_business register cs x.0, reg'))
          (customs_plan cs)
          (set_business cs)
  customs_Does cs g reg =
      ap (λ g'. init_customs register cs reg >>= λ reg'. returns (g', reg'))
        (business_lem register cs g)
      ∙ ap (λ a. a >>= λ reg'. returns (set_business cs g, reg')) (init_customs_lem register cs reg)

  -- Init comes to the registration of the planned collectors.
  pub init_registers :
      (m : InitMetrics C) (reg : R) (g : Globals)
      → init register m reg g
        ≡ (register_all register (plan m) reg >>= λ reg'. returns (enabled m g, reg'))
  unfolding init
  init_registers m reg g =
      let cs = m.custom_collectors in
      let with_sbi =
        when register (m.metrics_enabled sbi)
          (add_sbi_to_registry register m.nf_name m.namespace) in
      let with_nas =
        when register (m.metrics_enabled nas)
          (add_nas_to_registry register m.nf_name m.namespace) in
      let with_ngap =
        when register (m.metrics_enabled ngap)
          (add_ngap_to_registry register m.nf_name m.namespace) in
      let part_sbi = part (m.metrics_enabled sbi) m.nf_name (sbi_vecs m.namespace) in
      let part_nas =
        part (m.metrics_enabled nas) m.nf_name (get_nas_handler_metrics m.namespace nothing).1 in
      let part_ngap =
        part (m.metrics_enabled ngap) m.nf_name (get_ngap_handler_metrics m.namespace nothing).1 in
      let last =
        Does-then register with_nas with_ngap part_nas part_ngap (set_nas (m.metrics_enabled nas))
          (set_ngap (m.metrics_enabled ngap))
          (nas_Does register (m.metrics_enabled nas) m.nf_name m.namespace)
          (ngap_Does register (m.metrics_enabled ngap) m.nf_name m.namespace) in
      let types =
        Does-then register with_sbi (λ x. with_nas x >>= with_ngap) part_sbi (part_nas ++ part_ngap)
          (set_sbi (m.metrics_enabled sbi))
          (λ g'. set_ngap (m.metrics_enabled ngap) (set_nas (m.metrics_enabled nas) g'))
          (sbi_Does register (m.metrics_enabled sbi) m.nf_name m.namespace) last in
      sym (
        >>=-assoc register (init_customs register cs reg)
          (λ reg'. returns (enable_business register cs g, reg'))
          (λ x. with_sbi x >>= λ y. with_nas y >>= with_ngap))
      ∙ Does-then register
          (λ x. init_customs register cs x.1 >>= λ reg'.
            returns (enable_business register cs x.0, reg'))
          (λ x. with_sbi x >>= λ y. with_nas y >>= with_ngap) (customs_plan cs)
          (part_sbi ++ (part_nas ++ part_ngap)) (set_business cs)
          (λ g'.
            set_ngap (m.metrics_enabled ngap)
              (set_nas (m.metrics_enabled nas) (set_sbi (m.metrics_enabled sbi) g')))
          (customs_Does cs) types g reg

-- The variables that Init leaves.
enabled-IsReady :
    {C : Type 0} (m : InitMetrics C) (g : Globals)
    → IsReady g
    → IsReady (enabled m g)
      × Flags
          (m.metrics_enabled sbi)
          (m.metrics_enabled nas)
          (m.metrics_enabled ngap)
          g
          (enabled m g)
enabled-IsReady m g h = (
  set_ngap-IsReady _ _
      (set_nas-IsReady _ _ (set_sbi-IsReady _ _ (set_business-IsReady m.custom_collectors g h))),
  Flags-set_business m.custom_collectors _ _ _ g,
)

-- Init comes to the registration of the planned collectors, one after the other: the custom ones
-- without the label `nf_type`, then those of the enabled types with it; it panics just when one of
-- these does. From variables in which every enabled type has its counters set it leaves variables
-- of that kind, and a type is enabled just when it was before or the configuration enables it.
pub init_enables :
    {C R : Type 0} (register : Option Bytes → Collector C → R → Option R) (m : InitMetrics C)
    (reg : R) (g : Globals)
    → IsReady g
    → (init register m reg g
        ≡ (register_all register (plan m) reg >>= λ reg'. returns (enabled m g, reg')))
      × IsReady (enabled m g)
      × Flags
          (m.metrics_enabled sbi)
          (m.metrics_enabled nas)
          (m.metrics_enabled ngap)
          g
          (enabled m g)
init_enables register m reg g h =
    let (ready, flags) = enabled-IsReady m g h in (init_registers register m reg g, ready, flags)
