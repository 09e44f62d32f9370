-- ===== src/Agent/Planner/Executable.antt =====
-- The steps of a plan: registered tools, valid arguments, and rows that the caller may read.
use parcelpilot_ops_copilot.Prelude.{
  ◌≡◌, inl, inr, refl, String, Option, none, some, List, [], ◌∷◌, ◌++◌, Has, lookup,
}
use parcelpilot_ops_copilot.Models.{AuthContext, Database}
use parcelpilot_ops_copilot.Result.{ok, EntityType}
use parcelpilot_ops_copilot.Agent.Entities.{EntityResolution, Texts, resolve_entities}
use parcelpilot_ops_copilot.Agent.Entities.Reads.{Shown}
use parcelpilot_ops_copilot.Agent.Entities.Visible.{AllShown, AllShown-resolved}
use parcelpilot_ops_copilot.Agent.Intent.{Intent}
use parcelpilot_ops_copilot.Agent.Requests.{
  LookupKind, CalculationType, ToolRequest, search_request, lookup_request, calculation_request,
  detection_request, search_model, lookup_model, calculation_model,
}
use parcelpilot_ops_copilot.Agent.Registry.{ToolSpec, tool_registry}
use parcelpilot_ops_copilot.Agent.Planner.{
  PlanStep, both_outcomes, lookup_order, lookup_ticket, lookup_account, search, calculate, for_each,
  steps_of, build_plan,
}

abbrev pub AllSteps : (PlanStep → Type 0) → List PlanStep → Type 0
AllSteps P [] = Unit
AllSteps P (step ∷ steps) = P step × AllSteps P steps

AllSteps-concat :
    (P : PlanStep → Type 0) (xs ys : List PlanStep)
    → AllSteps P xs
    → AllSteps P ys
    → AllSteps P (xs ++ ys)
AllSteps-concat P [] ys h k = k
AllSteps-concat P (x ∷ xs) ys h k = (h.0, AllSteps-concat P xs ys h.1 k)

AllSteps-for_each :
    (P : PlanStep → Type 0) (ids : List String) (f : String → List PlanStep)
    → ((id : String) → Has id ids → AllSteps P (f id))
    → AllSteps P (for_each ids f)
AllSteps-for_each P [] f h = tt
AllSteps-for_each P (id ∷ ids) f h =
    AllSteps-concat P (f id) (for_each ids f) (h id (inl refl))
      (AllSteps-for_each P ids f (λ i m. h i (inr m)))

module _ (conn : Database) (auth : AuthContext) where
  -- The rows that a lookup and a calculation read first are there for the caller.
  abbrev pub LooksUp : LookupKind → Option String → Type 0
  LooksUp LookupKind.get_account_kind (some id) = Shown conn auth EntityType.account_entity id
  LooksUp LookupKind.get_order_kind (some id) = Shown conn auth EntityType.order_entity id
  LooksUp LookupKind.get_ticket_kind (some id) = Shown conn auth EntityType.ticket_entity id
  LooksUp _ _ = ⊥

  abbrev pub Calculates : CalculationType → String → Type 0
  Calculates CalculationType.cancellation id = Shown conn auth EntityType.order_entity id
  Calculates CalculationType.service_credit id = Shown conn auth EntityType.order_entity id
  Calculates CalculationType.sla id = Shown conn auth EntityType.ticket_entity id
  Calculates CalculationType.severity id = Shown conn auth EntityType.ticket_entity id

  abbrev pub IsVisible : ToolRequest → Type 0
  IsVisible (search_request r) = Unit
  IsVisible (lookup_request r) = LooksUp r.kind r.entity_id
  IsVisible (calculation_request r) = Calculates r.calculation_type r.entity_id
  IsVisible (detection_request r) = ⊥

  -- The step's tool is registered, takes the step's arguments, and is asked for visible rows.
  pub record Ready (step : PlanStep) : Type 0 where
    pub tool : ToolSpec
    pub registered : lookup step.tool tool_registry ≡ some tool
    pub request : ToolRequest
    pub valid : tool.input_model step.args ≡ some request
    pub is_visible : IsVisible request

  order-Ready : (id : String) → Shown conn auth EntityType.order_entity id → Ready (lookup_order id)
  unfolding lookup_model
  order-Ready id h = record {
    tool = _;
    registered = refl;
    request = _;
    valid = refl;
    is_visible = h;
  }

  ticket-Ready :
      (id : String) → Shown conn auth EntityType.ticket_entity id → Ready (lookup_ticket id)
  unfolding lookup_model
  ticket-Ready id h = record {
    tool = _;
    registered = refl;
    request = _;
    valid = refl;
    is_visible = h;
  }

  account-Ready :
      (id : String) → Shown conn auth EntityType.account_entity id → Ready (lookup_account id)
  unfolding lookup_model
  account-Ready id h = record {
    tool = _;
    registered = refl;
    request = _;
    valid = refl;
    is_visible = h;
  }

  search-Ready : (question purpose : String) → Ready (search question purpose none)
  unfolding search_model
  search-Ready question purpose = record {
    tool = _;
    registered = refl;
    request = _;
    valid = refl;
    is_visible = tt;
  }

  policy-Ready :
      (question purpose : String) → Ready (search question purpose (some ("support_policy" ∷ [])))
  unfolding search_model
  policy-Ready question purpose = record {
    tool = _;
    registered = refl;
    request = _;
    valid = refl;
    is_visible = tt;
  }

  product-Ready :
      (question purpose : String) → Ready (search question purpose (some ("product_doc" ∷ [])))
  unfolding search_model
  product-Ready question purpose = record {
    tool = _;
    registered = refl;
    request = _;
    valid = refl;
    is_visible = tt;
  }

  cancellation-Ready :
      (id purpose : String)
      → Shown conn auth EntityType.order_entity id
      → Ready (calculate "cancellation" id purpose)
  unfolding calculation_model
  cancellation-Ready id purpose h = record {
    tool = _;
    registered = refl;
    request = _;
    valid = refl;
    is_visible = h;
  }

  credit-Ready :
      (id purpose : String)
      → Shown conn auth EntityType.order_entity id
      → Ready (calculate "service_credit" id purpose)
  unfolding calculation_model
  credit-Ready id purpose h = record {
    tool = _;
    registered = refl;
    request = _;
    valid = refl;
    is_visible = h;
  }

  sla-Ready :
      (id purpose : String)
      → Shown conn auth EntityType.ticket_entity id
      → Ready (calculate "sla" id purpose)
  unfolding calculation_model
  sla-Ready id purpose h = record {
    tool = _;
    registered = refl;
    request = _;
    valid = refl;
    is_visible = h;
  }

  severity-Ready :
      (id purpose : String)
      → Shown conn auth EntityType.ticket_entity id
      → Ready (calculate "severity" id purpose)
  unfolding calculation_model
  severity-Ready id purpose h = record {
    tool = _;
    registered = refl;
    request = _;
    valid = refl;
    is_visible = h;
  }

  module _ (question : String) (e : EntityResolution) (shown : AllShown conn auth e) where
    -- Loops over the ids of a bucket whose steps are ready for a visible id, and a search after them.
    for_orders :
        (f : String → List PlanStep)
        → ((id : String) → Shown conn auth EntityType.order_entity id → AllSteps Ready (f id))
        → AllSteps Ready (for_each e.order_ids f)
    for_orders f h = AllSteps-for_each Ready e.order_ids f (λ id m. h id (shown.orders id m))

    for_tickets :
        (f : String → List PlanStep)
        → ((id : String) → Shown conn auth EntityType.ticket_entity id → AllSteps Ready (f id))
        → AllSteps Ready (for_each e.ticket_ids f)
    for_tickets f h = AllSteps-for_each Ready e.ticket_ids f (λ id m. h id (shown.tickets id m))

    for_accounts :
        (f : String → List PlanStep)
        → ((id : String) → Shown conn auth EntityType.account_entity id → AllSteps Ready (f id))
        → AllSteps Ready (for_each e.account_ids f)
    for_accounts f h = AllSteps-for_each Ready e.account_ids f (λ id m. h id (shown.accounts id m))

    then_search :
        (xs : List PlanStep) (purpose : String)
        → AllSteps Ready xs
        → AllSteps Ready (xs ++ search question purpose none ∷ [])
    then_search xs purpose h =
        AllSteps-concat Ready xs (search question purpose none ∷ []) h
          (search-Ready question purpose, tt)

    steps_of-Ready : (intent : Intent) → AllSteps Ready (steps_of question intent e)
    steps_of-Ready Intent.cancellation =
        then_search _ _ (for_orders _ (λ id h. (order-Ready id h, (cancellation-Ready id _ h, tt))))
    steps_of-Ready Intent.service_credit =
        then_search _ _ (for_orders _ (λ id h. (order-Ready id h, (credit-Ready id _ h, tt))))
    steps_of-Ready Intent.sla =
        then_search _ _ (for_tickets _ (λ id h. (ticket-Ready id h, (sla-Ready id _ h, tt))))
    steps_of-Ready Intent.severity =
        AllSteps-concat Ready _ _
          (for_tickets _ (λ id h. (ticket-Ready id h, (severity-Ready id _ h, tt))))
          (policy-Ready question _, tt)
    steps_of-Ready Intent.known_issue = (product-Ready question _, tt)
    steps_of-Ready Intent.order_investigation =
        then_search _ _ (for_orders _ (λ id h. (order-Ready id h, tt)))
    steps_of-Ready Intent.ticket_investigation =
        then_search _ _ (for_tickets _ (λ id h. (ticket-Ready id h, tt)))
    steps_of-Ready Intent.account_investigation =
        then_search _ _ (for_accounts _ (λ id h. (account-Ready id h, tt)))
    steps_of-Ready Intent.multi_source =
        let orders = for_orders _ (λ id h. (order-Ready id h, tt)) in
        let tickets = for_tickets _ (λ id h. (ticket-Ready id h, tt)) in
        let both =
          for_orders both_outcomes
            (λ id h. (cancellation-Ready id _ h, (credit-Ready id _ h, tt))) in
        let slas = for_tickets _ (λ id h. (sla-Ready id _ h, tt)) in
        AllSteps-concat Ready _ _
          (AllSteps-concat Ready _ _ (then_search _ _ (AllSteps-concat Ready _ _ orders tickets))
            both)
          slas
    steps_of-Ready Intent.informational = (search-Ready question _, tt)
    steps_of-Ready Intent.clarification = tt
    steps_of-Ready Intent.unsupported = tt

  -- For entities that were resolved from a question, every step of the plan of any intent names a
  -- registered tool, whose request model takes the arguments of the step; and each row that a
  -- lookup or a calculation of it names can be read by the caller.
  pub build_plan-Ready :
      (texts : Texts) (question : String) (intent : Intent) (e : EntityResolution)
      → resolve_entities texts conn auth question ≡ ok e
      → AllSteps Ready (build_plan question intent e).steps
  unfolding build_plan
  build_plan-Ready texts question intent e h =
      steps_of-Ready question e (AllShown-resolved conn auth texts question e h) intent
