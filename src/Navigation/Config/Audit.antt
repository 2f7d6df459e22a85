-- ===== src/Navigation/Config/Audit.antt =====
-- The links of auditor clerks in frontend/src/config/navigationConfig.js.
use hybrid_quantum_cryptogra.Prelude.{none, some, List, [], ◌∷◌}
use hybrid_quantum_cryptogra.Js.{lit}
use hybrid_quantum_cryptogra.Roles.{auditor_clerk}
use hybrid_quantum_cryptogra.Navigation.Items.{NavItem, link, group}

unfoldable pub auditor_clerk_navigation : List NavItem
auditor_clerk_navigation =
    link (record {
      id = lit "audit-dashboard";
      label = lit "Dashboard";
      path = lit "/auditor/dashboard";
      icon = lit "dashboard";
      roles = auditor_clerk ∷ [];
      required_permission = none;
    })
    ∷ group (record {
      id = lit "audit-logs-group";
      label = lit "Audit Logs & Monitoring";
      icon = lit "description";
      roles = auditor_clerk ∷ [];
      children =
          record {
            id = lit "transaction-audit";
            label = lit "Transaction Audit";
            path = lit "/auditor/transactions";
            icon = lit "receipt_long";
            roles = auditor_clerk ∷ [];
            required_permission = some (lit "view_all_transactions");
          }
          ∷ record {
            id = lit "user-activity";
            label = lit "User Activity Logs";
            path = lit "/auditor/activity";
            icon = lit "timeline";
            roles = auditor_clerk ∷ [];
            required_permission = some (lit "view_all_audit_logs");
          }
          ∷ record {
            id = lit "security-encryption-logs";
            label = lit "Security & Encryption Logs";
            path = lit "/auditor/security-logs";
            icon = lit "shield";
            roles = auditor_clerk ∷ [];
            required_permission = some (lit "view_security_events");
          }
          ∷ [];
    })
    ∷ group (record {
      id = lit "verification-compliance-group";
      label = lit "Verification & Compliance";
      icon = lit "verified";
      roles = auditor_clerk ∷ [];
      children =
          record {
            id = lit "data-integrity";
            label = lit "Data Integrity Verification";
            path = lit "/auditor/integrity";
            icon = lit "fact_check";
            roles = auditor_clerk ∷ [];
            required_permission = some (lit "verify_transaction_integrity");
          }
          ∷ record {
            id = lit "compliance-reports";
            label = lit "Compliance Reports";
            path = lit "/auditor/compliance";
            icon = lit "policy";
            roles = auditor_clerk ∷ [];
            required_permission = none;
          }
          ∷ record {
            id = lit "suspicious-activity";
            label = lit "Suspicious Activity Reports";
            path = lit "/auditor/suspicious";
            icon = lit "report_problem";
            roles = auditor_clerk ∷ [];
            required_permission = none;
          }
          ∷ [];
    })
    ∷ group (record {
      id = lit "reports-export-group";
      label = lit "Reports & Export";
      icon = lit "analytics";
      roles = auditor_clerk ∷ [];
      children =
          record {
            id = lit "export-reports";
            label = lit "Export Reports";
            path = lit "/auditor/export";
            icon = lit "file_download";
            roles = auditor_clerk ∷ [];
            required_permission = some (lit "export_audit_reports");
          }
          ∷ [];
    })
    ∷ []
