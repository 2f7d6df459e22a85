-- ===== src/Routes/Table/Branch.antt =====
-- The routes of managers in frontend/src/routes/ComprehensiveRoutes.jsx.
use hybrid_quantum_cryptogra.Prelude.{List, [], ◌∷◌}
use hybrid_quantum_cryptogra.Js.{lit}
use hybrid_quantum_cryptogra.Roles.{manager}
use hybrid_quantum_cryptogra.Routes.Items.{Route, layout_for}

unfoldable pub manager_routes : List Route
manager_routes =
    record {
      path = lit "/manager/dashboard";
      guard = layout_for (manager ∷ []);
      component = lit "ManagerDashboard";
    }
    ∷ record {
      path = lit "/manager/customers";
      guard = layout_for (manager ∷ []);
      component = lit "ManagerCustomers";
    }
    ∷ record {
      path = lit "/manager/kyc";
      guard = layout_for (manager ∷ []);
      component = lit "KYCVerification";
    }
    ∷ record {
      path = lit "/manager/kyc-verification";
      guard = layout_for (manager ∷ []);
      component = lit "KYCVerification";
    }
    ∷ record {
      path = lit "/manager/account-monitoring";
      guard = layout_for (manager ∷ []);
      component = lit "AccountMonitoring";
    }
    ∷ record {
      path = lit "/manager/accounts";
      guard = layout_for (manager ∷ []);
      component = lit "CustomerAccounts";
    }
    ∷ record {
      path = lit "/manager/customer-accounts";
      guard = layout_for (manager ∷ []);
      component = lit "CustomerAccounts";
    }
    ∷ record {
      path = lit "/manager/approvals/pending";
      guard = layout_for (manager ∷ []);
      component = lit "ApproveTransaction";
    }
    ∷ record {
      path = lit "/manager/approvals/history";
      guard = layout_for (manager ∷ []);
      component = lit "ApprovalHistory";
    }
    ∷ record {
      path = lit "/manager/risk-assessment";
      guard = layout_for (manager ∷ []);
      component = lit "TransactionRiskAssessment";
    }
    ∷ record {
      path = lit "/manager/account-monitoring";
      guard = layout_for (manager ∷ []);
      component = lit "AccountMonitoring";
    }
    ∷ record {
      path = lit "/manager/security-alerts";
      guard = layout_for (manager ∷ []);
      component = lit "SecurityAlerts";
    }
    ∷ record {
      path = lit "/manager/encryption";
      guard = layout_for (manager ∷ []);
      component = lit "EncryptionStatus";
    }
    ∷ record {
      path = lit "/manager/certificates";
      guard = layout_for (manager ∷ []);
      component = lit "CertificateOverview";
    }
    ∷ record {
      path = lit "/manager/audit";
      guard = layout_for (manager ∷ []);
      component = lit "ManagerAuditLogs";
    }
    ∷ record {
      path = lit "/manager/branch-audit";
      guard = layout_for (manager ∷ []);
      component = lit "BranchAudit";
    }
    ∷ record {
      path = lit "/manager/reports";
      guard = layout_for (manager ∷ []);
      component = lit "ManagerReports";
    }
    ∷ []
