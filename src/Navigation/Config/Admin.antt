-- ===== src/Navigation/Config/Admin.antt =====
-- The links of system administrators in frontend/src/config/navigationConfig.js.
use hybrid_quantum_cryptogra.Prelude.{none, some, List, [], ◌∷◌}
use hybrid_quantum_cryptogra.Js.{lit}
use hybrid_quantum_cryptogra.Roles.{system_admin}
use hybrid_quantum_cryptogra.Navigation.Items.{NavItem, link, group}

unfoldable pub system_admin_navigation : List NavItem
system_admin_navigation =
    link (record {
      id = lit "admin-dashboard";
      label = lit "Admin Dashboard";
      path = lit "/admin/dashboard";
      icon = lit "admin_panel_settings";
      roles = system_admin ∷ [];
      required_permission = none;
    })
    ∷ group (record {
      id = lit "user-role-group";
      label = lit "User & Role Management";
      icon = lit "people";
      roles = system_admin ∷ [];
      children =
          record {
            id = lit "user-management";
            label = lit "User Management";
            path = lit "/admin/users";
            icon = lit "manage_accounts";
            roles = system_admin ∷ [];
            required_permission = some (lit "manage_users");
          }
          ∷ record {
            id = lit "role-management";
            label = lit "Role Management";
            path = lit "/admin/roles";
            icon = lit "badge";
            roles = system_admin ∷ [];
            required_permission = some (lit "manage_roles");
          }
          ∷ record {
            id = lit "access-control";
            label = lit "Access Control Policies";
            path = lit "/admin/access-control";
            icon = lit "policy";
            roles = system_admin ∷ [];
            required_permission = some (lit "manage_permissions");
          }
          ∷ [];
    })
    ∷ group (record {
      id = lit "security-group";
      label = lit "Security & Certificates";
      icon = lit "security";
      roles = system_admin ∷ [];
      children =
          record {
            id = lit "certificate-management";
            label = lit "Certificate Management";
            path = lit "/admin/certificates";
            icon = lit "workspace_premium";
            roles = system_admin ∷ [];
            required_permission = none;
          }
          ∷ record {
            id = lit "crypto-management";
            label = lit "Cryptography Management";
            path = lit "/admin/cryptography";
            icon = lit "key";
            roles = system_admin ∷ [];
            required_permission = none;
          }
          ∷ record {
            id = lit "security-policies";
            label = lit "Security Policies";
            path = lit "/admin/security-policies";
            icon = lit "shield";
            roles = system_admin ∷ [];
            required_permission = none;
          }
          ∷ [];
    })
    ∷ group (record {
      id = lit "monitoring-group";
      label = lit "Monitoring & Audit";
      icon = lit "analytics";
      roles = system_admin ∷ [];
      children =
          record {
            id = lit "admin-audit-logs";
            label = lit "Audit Logs";
            path = lit "/admin/audit";
            icon = lit "description";
            roles = system_admin ∷ [];
            required_permission = some (lit "view_global_audit");
          }
          ∷ record {
            id = lit "system-monitoring";
            label = lit "System Monitoring";
            path = lit "/admin/monitoring";
            icon = lit "monitor_heart";
            roles = system_admin ∷ [];
            required_permission = none;
          }
          ∷ record {
            id = lit "incident-response";
            label = lit "Incident Response";
            path = lit "/admin/incidents";
            icon = lit "emergency";
            roles = system_admin ∷ [];
            required_permission = none;
          }
          ∷ [];
    })
    ∷ group (record {
      id = lit "config-group";
      label = lit "System Configuration";
      icon = lit "settings";
      roles = system_admin ∷ [];
      children =
          record {
            id = lit "system-config";
            label = lit "System Configuration";
            path = lit "/admin/config";
            icon = lit "tune";
            roles = system_admin ∷ [];
            required_permission = some (lit "manage_system_config");
          }
          ∷ record {
            id = lit "backup-recovery";
            label = lit "Backup & Recovery";
            path = lit "/admin/backup";
            icon = lit "backup";
            roles = system_admin ∷ [];
            required_permission = none;
          }
          ∷ [];
    })
    ∷ []
