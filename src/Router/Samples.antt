-- ===== src/Router/Samples.antt =====
-- The theorem about the agent router at the default rules.
use wherecode.Router.{default_router, route}
use wherecode.Router.Routed.{IsDecided, route-IsDecided}

route-IsDecided_example :
    IsDecided
      (λ t. t)
      default_router
      "auto"
      "please run tests and review"
      (route (λ t. t) default_router "auto" "please run tests and review")
route-IsDecided_example =
    route-IsDecided (λ t. t) default_router "auto" "please run tests and review"
