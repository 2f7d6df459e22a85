-- ===== src/Routes/Table/Clients.antt =====
-- The public routes, the shared ones and those of customers in frontend/src/routes/ComprehensiveRoutes.jsx.
use hybrid_quantum_cryptogra.Prelude.{List, [], ◌∷◌}
use hybrid_quantum_cryptogra.Js.{lit}
use hybrid_quantum_cryptogra.Roles.{customer}
use hybrid_quantum_cryptogra.Routes.Items.{Route, guest_only, unguarded, layout, layout_for}

unfoldable pub public_routes : List Route
public_routes =
    record { path = lit "/"; guard = guest_only; component = lit "PublicLanding" }
    ∷ record { path = lit "/public"; guard = unguarded; component = lit "PublicLanding" }
    ∷ record { path = lit "/login"; guard = guest_only; component = lit "Login" }
    ∷ record { path = lit "/register"; guard = guest_only; component = lit "CustomerSignup" }
    ∷ record { path = lit "/logout"; guard = unguarded; component = lit "Logout" }
    ∷ []

unfoldable pub dashboard_route : List Route
dashboard_route =
    record { path = lit "/dashboard"; guard = layout; component = lit "UniversalDashboard" } ∷ []

unfoldable pub customer_routes : List Route
customer_routes =
    record {
      path = lit "/customer/dashboard";
      guard = layout_for (customer ∷ []);
      component = lit "UniversalDashboard";
    }
    ∷ record {
      path = lit "/customer/accounts";
      guard = layout_for (customer ∷ []);
      component = lit "AccountsOverview";
    }
    ∷ record {
      path = lit "/customer/beneficiaries";
      guard = layout_for (customer ∷ []);
      component = lit "BeneficiaryManagement";
    }
    ∷ record {
      path = lit "/customer/transfer";
      guard = layout_for (customer ∷ []);
      component = lit "CreateTransaction";
    }
    ∷ record {
      path = lit "/customer/transactions";
      guard = layout_for (customer ∷ []);
      component = lit "TransactionHistory";
    }
    ∷ record {
      path = lit "/statements/download";
      guard = layout_for (customer ∷ []);
      component = lit "DownloadStatement";
    }
    ∷ record {
      path = lit "/customer/security";
      guard = layout_for (customer ∷ []);
      component = lit "SecurityCenter";
    }
    ∷ record {
      path = lit "/customer/profile";
      guard = layout_for (customer ∷ []);
      component = lit "ProfileSwitcher";
    }
    ∷ record {
      path = lit "/profile/settings";
      guard = layout_for (customer ∷ []);
      component = lit "ProfileSettings";
    }
    ∷ record {
      path = lit "/customer/certificates";
      guard = layout_for (customer ∷ []);
      component = lit "CertificateRequest";
    }
    ∷ []

unfoldable pub remaining_routes : List Route
remaining_routes =
    record { path = lit "/unauthorized"; guard = layout; component = lit "Unauthorized Access" }
    ∷ record { path = lit "*"; guard = layout; component = lit "404 - Page Not Found" }
    ∷ []
