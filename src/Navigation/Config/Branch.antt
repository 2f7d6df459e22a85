-- ===== src/Navigation/Config/Branch.antt =====
-- The links of branch managers in frontend/src/config/navigationConfig.js.
use hybrid_quantum_cryptogra.Prelude.{none, some, List, [], ◌∷◌}
use hybrid_quantum_cryptogra.Js.{lit}
use hybrid_quantum_cryptogra.Roles.{manager}
use hybrid_quantum_cryptogra.Navigation.Items.{NavItem, link, group}

unfoldable pub manager_navigation : List NavItem
manager_navigation =
    link (record {
      id = lit "manager-dashboard";
      label = lit "Dashboard";
      path = lit "/manager/dashboard";
      icon = lit "dashboard";
      roles = manager ∷ [];
      required_permission = none;
    })
    ∷ group (record {
      id = lit "customer-management-group";
      label = lit "Customer Management";
      icon = lit "people";
      roles = manager ∷ [];
      children =
          record {
            id = lit "customer-accounts";
            label = lit "Customer Accounts";
            path = lit "/manager/customers";
            icon = lit "account_circle";
            roles = manager ∷ [];
            required_permission = some (lit "view_all_customers");
          }
          ∷ record {
            id = lit "kyc-verification";
            label = lit "KYC Verification";
            path = lit "/manager/kyc-verification";
            icon = lit "verified_user";
            roles = manager ∷ [];
            required_permission = none;
          }
          ∷ record {
            id = lit "account-monitoring";
            label = lit "Account Monitoring";
            path = lit "/manager/account-monitoring";
            icon = lit "monitor";
            roles = manager ∷ [];
            required_permission = none;
          }
          ∷ [];
    })
    ∷ group (record {
      id = lit "transaction-management-group";
      label = lit "Transaction Management";
      icon = lit "payments";
      roles = manager ∷ [];
      children =
          record {
            id = lit "pending-approvals";
            label = lit "Pending Approvals";
            path = lit "/manager/approvals/pending";
            icon = lit "pending_actions";
            roles = manager ∷ [];
            required_permission = some (lit "approve_transaction");
          }
          ∷ record {
            id = lit "approved-rejected";
            label = lit "Approval History";
            path = lit "/manager/approvals/history";
            icon = lit "fact_check";
            roles = manager ∷ [];
            required_permission = none;
          }
          ∷ record {
            id = lit "risk-assessment";
            label = lit "Risk Assessment";
            path = lit "/manager/risk-assessment";
            icon = lit "assessment";
            roles = manager ∷ [];
            required_permission = none;
          }
          ∷ [];
    })
    ∷ group (record {
      id = lit "security-compliance-group";
      label = lit "Security & Compliance";
      icon = lit "security";
      roles = manager ∷ [];
      children =
          record {
            id = lit "security-alerts";
            label = lit "Security Alerts";
            path = lit "/manager/security-alerts";
            icon = lit "warning";
            roles = manager ∷ [];
            required_permission = none;
          }
          ∷ record {
            id = lit "encryption-status";
            label = lit "Encryption Status";
            path = lit "/manager/encryption";
            icon = lit "enhanced_encryption";
            roles = manager ∷ [];
            required_permission = none;
          }
          ∷ record {
            id = lit "manager-certificates";
            label = lit "Certificates";
            path = lit "/manager/certificates";
            icon = lit "workspace_premium";
            roles = manager ∷ [];
            required_permission = none;
          }
          ∷ [];
    })
    ∷ group (record {
      id = lit "reports-audit-group";
      label = lit "Reports & Audit";
      icon = lit "analytics";
      roles = manager ∷ [];
      children =
          record {
            id = lit "manager-reports";
            label = lit "Reports";
            path = lit "/manager/reports";
            icon = lit "bar_chart";
            roles = manager ∷ [];
            required_permission = some (lit "view_manager_reports");
          }
          ∷ record {
            id = lit "manager-audit-logs";
            label = lit "Audit Logs";
            path = lit "/manager/audit";
            icon = lit "description";
            roles = manager ∷ [];
            required_permission = some (lit "view_branch_audit");
          }
          ∷ record {
            id = lit "branch-audit";
            label = lit "Branch Audit";
            path = lit "/manager/branch-audit";
            icon = lit "store";
            roles = manager ∷ [];
            required_permission = none;
          }
          ∷ [];
    })
    ∷ []
