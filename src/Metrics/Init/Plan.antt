-- ===== src/Metrics/Init/Plan.antt =====
-- The plan of Init: which collectors it registers, and how each part keeps to that.
use free5gc_workspace.Prelude.{
  ◌≡◌, refl, ap, sym, ◌∙◌, Bool, true, false, List, [], ◌∷◌, ◌++◌, Option, none, some,
  if◌then◌else◌,
}
use free5gc_workspace.Prelude.Outcome.{Outcome, returns, fails, panics, ◌>>=◌}
use free5gc_workspace.Text.Decimal.{Bytes}
use free5gc_workspace.Metrics.Init.{
  Globals, Vec, registered, InitMetrics, sbi, nas, ngap, Collector, vecs, customs, Added, Step,
  init_metric, init_customs, add_sbi_to_registry, add_nas_to_registry, add_ngap_to_registry,
  get_sbi_outbound_metrics, get_sbi_inbound_metrics, get_nas_handler_metrics,
  get_ngap_handler_metrics, when,
}

-- No variable is set.
abbrev pub nothing : Globals
nothing = record {
  business_enabled = false;
  sbi_enabled = false;
  nas_enabled = false;
  ngap_enabled = false;
  sbi_outbound_set = false;
  sbi_inbound_set = false;
  nas_set = false;
  ngap_set = false;
}

abbrev pub sbi_vecs : Bytes → List Vec
sbi_vecs namespace =
    (get_sbi_outbound_metrics namespace nothing).1 ++ (get_sbi_inbound_metrics namespace nothing).1

unfoldable pub set_sbi : Bool → Globals → Globals
set_sbi false g = g
set_sbi true g = record g { sbi_enabled = true; sbi_outbound_set = true; sbi_inbound_set = true }

unfoldable pub set_nas : Bool → Globals → Globals
set_nas false g = g
set_nas true g = record g { nas_enabled = true; nas_set = true }

unfoldable pub set_ngap : Bool → Globals → Globals
set_ngap false g = g
set_ngap true g = record g { ngap_enabled = true; ngap_set = true }

module _ {C : Type 0} where
  abbrev pub labelled : Option Bytes → List (Collector C) → List (Option Bytes × Collector C)
  labelled nf_type [] = []
  labelled nf_type (x ∷ xs) = (nf_type, x) ∷ labelled nf_type xs

  abbrev pub customs_plan : List (List C) → List (Option Bytes × Collector C)
  customs_plan [] = []
  customs_plan (cs ∷ rest) = labelled none (customs cs) ++ customs_plan rest

  abbrev pub part : Bool → Bytes → List Vec → List (Option Bytes × Collector C)
  part enabled nf_name metrics = if enabled then labelled (some nf_name) (vecs metrics) else []

  -- The collectors in the order in which they are registered: the custom ones without the label
  -- `nf_type`, then those of the enabled types with it.
  abbrev pub plan : InitMetrics C → List (Option Bytes × Collector C)
  plan m =
      customs_plan m.custom_collectors
      ++ (part (m.metrics_enabled sbi) m.nf_name (sbi_vecs m.namespace)
          ++ (part (m.metrics_enabled nas) m.nf_name (get_nas_handler_metrics m.namespace nothing).1
              ++ part (m.metrics_enabled ngap) m.nf_name
                  (get_ngap_handler_metrics m.namespace nothing).1))

  abbrev pub set_business : List (List C) → Globals → Globals
  set_business [] g = g
  set_business (c ∷ cs) g = record g { business_enabled = true }

  -- The variables afterwards.
  abbrev pub enabled : InitMetrics C → Globals → Globals
  enabled m g = set_ngap (m.metrics_enabled ngap) (
      set_nas (m.metrics_enabled nas)
        (set_sbi (m.metrics_enabled sbi) (set_business m.custom_collectors g)))

  module _ {R : Type 0} (register : Option Bytes → Collector C → R → Option R) where
    abbrev one : Option R → Step register
    one none = panics
    one (some reg) = returns reg

    -- One registration after the other.
    abbrev pub register_all : List (Option Bytes × Collector C) → R → Step register
    register_all [] reg = returns reg
    register_all (x ∷ xs) reg = one (register x.0 x.1 reg) >>= register_all xs

    register_all-append :
        (xs ys : List (Option Bytes × Collector C)) (reg : R)
        → register_all (xs ++ ys) reg ≡ (register_all xs reg >>= register_all ys)
    register_all-append [] ys reg = refl
    register_all-append (x ∷ xs) ys reg = step (register x.0 x.1 reg) (register_all-append xs ys)
      where
        step :
            (r : Option R)
            → ((reg' : R)
                → register_all (xs ++ ys) reg' ≡ (register_all xs reg' >>= register_all ys))
            → (one r >>= register_all (xs ++ ys))
              ≡ ((one r >>= register_all xs) >>= register_all ys)
        step none rest = refl
        step (some reg') rest = rest reg'

    init_metric_lem :
        (nf_type : Option Bytes) (xs : List (Collector C)) (reg : R)
        → init_metric register nf_type xs reg ≡ register_all (labelled nf_type xs) reg
    unfolding init_metric registered
    init_metric_lem nf_type [] reg = refl
    init_metric_lem nf_type (x ∷ xs) reg =
        step (register nf_type x reg) (init_metric_lem nf_type xs)
      where
        step :
            (r : Option R)
            → ((reg' : R)
                → init_metric register nf_type xs reg' ≡ register_all (labelled nf_type xs) reg')
            → (registered register r >>= init_metric register nf_type xs)
              ≡ (one r >>= register_all (labelled nf_type xs))
        step none rest = refl
        step (some reg') rest = rest reg'

    pub >>=-cong :
        {A B : Type 0} (a : Outcome (Unit {0}) A) (f h : A → Outcome (Unit {0}) B)
        → ((x : A) → f x ≡ h x)
        → (a >>= f) ≡ (a >>= h)
    >>=-cong (returns x) f h e = e x
    >>=-cong (fails e') f h e = refl
    >>=-cong panics f h e = refl

    pub >>=-assoc :
        {A B D : Type 0} (a : Outcome (Unit {0}) A) (f : A → Outcome (Unit {0}) B)
        (h : B → Outcome (Unit {0}) D)
        → ((a >>= f) >>= h) ≡ (a >>= λ x. f x >>= h)
    >>=-assoc (returns x) f h = refl
    >>=-assoc (fails e) f h = refl
    >>=-assoc panics f h = refl

    pub init_customs_lem :
        (cs : List (List C)) (reg : R)
        → init_customs register cs reg ≡ register_all (customs_plan cs) reg
    unfolding init_customs
    init_customs_lem [] reg = refl
    init_customs_lem (c ∷ cs) reg =
        >>=-cong (init_metric register none (customs c) reg) (init_customs register cs)
          (register_all (customs_plan cs)) (init_customs_lem cs)
        ∙ ap (λ a. a >>= register_all (customs_plan cs)) (init_metric_lem none (customs c) reg)
        ∙ sym (register_all-append (labelled none (customs c)) (customs_plan cs) reg)

    -- The step registers the collectors and changes the variables.
    abbrev pub Does :
        (Globals × R → Added register)
        → List (Option Bytes × Collector C)
        → (Globals → Globals)
        → Type 0
    Does step xs change =
        (g : Globals) (reg : R)
        → step (g, reg) ≡ (register_all xs reg >>= λ reg'. returns (change g, reg'))

    pub Does-then :
        (step next : Globals × R → Added register) (xs ys : List (Option Bytes × Collector C))
        (change change' : Globals → Globals)
        → Does step xs change
        → Does next ys change'
        → Does (λ x. step x >>= next) (xs ++ ys) (λ g. change' (change g))
    Does-then step next xs ys change change' d d' g reg =
        ap (λ a. a >>= next) (d g reg)
        ∙ >>=-assoc (register_all xs reg) (λ reg'. returns (change g, reg')) next
        ∙ >>=-cong (register_all xs reg) (λ reg'. next (change g, reg'))
            (λ reg'. register_all ys reg' >>= λ r. returns (change' (change g), r)) (d' (change g))
        ∙ sym (
            >>=-assoc (register_all xs reg) (register_all ys)
              (λ r. returns (change' (change g), r)))
        ∙ ap (λ a. a >>= λ r. returns (change' (change g), r)) (sym (register_all-append xs ys reg))

    pub sbi_Does :
        (b : Bool) (nf_name namespace : Bytes)
        → Does
            (when register b (add_sbi_to_registry register nf_name namespace))
            (part b nf_name (sbi_vecs namespace))
            (set_sbi b)
    unfolding when add_sbi_to_registry set_sbi
    sbi_Does false nf_name namespace g reg = refl
    sbi_Does true nf_name namespace g reg =
        ap
          (λ a. a >>= λ reg'. returns (
            record g { sbi_enabled = true; sbi_outbound_set = true; sbi_inbound_set = true },
            reg',
          ))
          (init_metric_lem (some nf_name) (vecs (sbi_vecs namespace)) reg)

    pub nas_Does :
        (b : Bool) (nf_name namespace : Bytes)
        → Does
            (when register b (add_nas_to_registry register nf_name namespace))
            (part b nf_name (get_nas_handler_metrics namespace nothing).1)
            (set_nas b)
    unfolding when add_nas_to_registry set_nas
    nas_Does false nf_name namespace g reg = refl
    nas_Does true nf_name namespace g reg =
        ap (λ a. a >>= λ reg'. returns (record g { nas_enabled = true; nas_set = true }, reg'))
          (init_metric_lem (some nf_name) (vecs (get_nas_handler_metrics namespace nothing).1) reg)

    pub ngap_Does :
        (b : Bool) (nf_name namespace : Bytes)
        → Does
            (when register b (add_ngap_to_registry register nf_name namespace))
            (part b nf_name (get_ngap_handler_metrics namespace nothing).1)
            (set_ngap b)
    unfolding when add_ngap_to_registry set_ngap
    ngap_Does false nf_name namespace g reg = refl
    ngap_Does true nf_name namespace g reg =
        ap (λ a. a >>= λ reg'. returns (record g { ngap_enabled = true; ngap_set = true }, reg'))
          (init_metric_lem (some nf_name) (vecs (get_ngap_handler_metrics namespace nothing).1) reg)
