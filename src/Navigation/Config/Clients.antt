-- ===== src/Navigation/Config/Clients.antt =====
-- The links of customers, and those of every role, in frontend/src/config/navigationConfig.js.
use hybrid_quantum_cryptogra.Prelude.{none, some, List, [], ◌∷◌}
use hybrid_quantum_cryptogra.Js.{lit}
use hybrid_quantum_cryptogra.Roles.{customer, manager, auditor_clerk, system_admin}
use hybrid_quantum_cryptogra.Navigation.Items.{NavItem, link, group}

unfoldable pub customer_navigation : List NavItem
customer_navigation =
    link (record {
      id = lit "customer-dashboard";
      label = lit "Dashboard";
      path = lit "/customer/dashboard";
      icon = lit "dashboard";
      roles = customer ∷ [];
      required_permission = none;
    })
    ∷ group (record {
      id = lit "account-group";
      label = lit "Account Management";
      icon = lit "account_balance_wallet";
      roles = customer ∷ [];
      children =
          record {
            id = lit "account-summary";
            label = lit "Account Summary";
            path = lit "/customer/accounts";
            icon = lit "account_balance";
            roles = customer ∷ [];
            required_permission = some (lit "view_own_account");
          }
          ∷ record {
            id = lit "download-statement";
            label = lit "Download Statement";
            path = lit "/statements/download";
            icon = lit "download";
            roles = customer ∷ [];
            required_permission = none;
          }
          ∷ record {
            id = lit "profile-settings";
            label = lit "Profile Settings";
            path = lit "/profile/settings";
            icon = lit "person";
            roles = customer ∷ [];
            required_permission = none;
          }
          ∷ [];
    })
    ∷ group (record {
      id = lit "transactions-group";
      label = lit "Transactions";
      icon = lit "payments";
      roles = customer ∷ [];
      children =
          record {
            id = lit "transfer-money";
            label = lit "Transfer Money";
            path = lit "/customer/transfer";
            icon = lit "send";
            roles = customer ∷ [];
            required_permission = some (lit "create_transaction");
          }
          ∷ record {
            id = lit "transaction-history";
            label = lit "Transaction History";
            path = lit "/customer/transactions";
            icon = lit "history";
            roles = customer ∷ [];
            required_permission = some (lit "view_own_transactions");
          }
          ∷ record {
            id = lit "beneficiary-management";
            label = lit "Manage Beneficiaries";
            path = lit "/customer/beneficiaries";
            icon = lit "people";
            roles = customer ∷ [];
            required_permission = none;
          }
          ∷ [];
    })
    ∷ group (record {
      id = lit "security-group";
      label = lit "Security & Certificates";
      icon = lit "security";
      roles = customer ∷ [];
      children =
          record {
            id = lit "security-status";
            label = lit "Security Center";
            path = lit "/customer/security";
            icon = lit "shield";
            roles = customer ∷ [];
            required_permission = none;
          }
          ∷ record {
            id = lit "certificate-request";
            label = lit "Certificate Request";
            path = lit "/customer/certificates";
            icon = lit "workspace_premium";
            roles = customer ∷ [];
            required_permission = none;
          }
          ∷ [];
    })
    ∷ []

unfoldable pub common_navigation : List NavItem
common_navigation =
    link (record {
      id = lit "logout";
      label = lit "Logout";
      path = lit "/logout";
      icon = lit "logout";
      roles = customer ∷ manager ∷ auditor_clerk ∷ system_admin ∷ [];
      required_permission = none;
    })
    ∷ []
