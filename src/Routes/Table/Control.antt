-- ===== src/Routes/Table/Control.antt =====
-- The routes of auditor clerks and system administrators in frontend/src/routes/ComprehensiveRoutes.jsx.
use hybrid_quantum_cryptogra.Prelude.{List, [], ◌∷◌}
use hybrid_quantum_cryptogra.Js.{lit}
use hybrid_quantum_cryptogra.Roles.{auditor_clerk, system_admin}
use hybrid_quantum_cryptogra.Routes.Items.{Route, layout_for}

unfoldable pub auditor_routes : List Route
auditor_routes =
    record {
      path = lit "/auditor/dashboard";
      guard = layout_for (auditor_clerk ∷ []);
      component = lit "AuditorClerkDashboard";
    }
    ∷ record {
      path = lit "/auditor/transactions";
      guard = layout_for (auditor_clerk ∷ []);
      component = lit "AuditTransactions";
    }
    ∷ record {
      path = lit "/auditor/activity";
      guard = layout_for (auditor_clerk ∷ []);
      component = lit "UserActivityLogs";
    }
    ∷ record {
      path = lit "/auditor/security-logs";
      guard = layout_for (auditor_clerk ∷ []);
      component = lit "SecurityEncryptionLogs";
    }
    ∷ record {
      path = lit "/auditor/integrity";
      guard = layout_for (auditor_clerk ∷ []);
      component = lit "DataIntegrityVerification";
    }
    ∷ record {
      path = lit "/auditor/compliance";
      guard = layout_for (auditor_clerk ∷ []);
      component = lit "ComplianceReports";
    }
    ∷ record {
      path = lit "/auditor/suspicious";
      guard = layout_for (auditor_clerk ∷ []);
      component = lit "SuspiciousActivityReports";
    }
    ∷ record {
      path = lit "/auditor/export";
      guard = layout_for (auditor_clerk ∷ []);
      component = lit "ExportReports";
    }
    ∷ []

unfoldable pub admin_routes : List Route
admin_routes =
    record {
      path = lit "/admin/dashboard";
      guard = layout_for (system_admin ∷ []);
      component = lit "SystemAdminDashboard";
    }
    ∷ record {
      path = lit "/admin/users";
      guard = layout_for (system_admin ∷ []);
      component = lit "SystemAdminUserInventory";
    }
    ∷ record {
      path = lit "/admin/roles";
      guard = layout_for (system_admin ∷ []);
      component = lit "SystemAdminRoleManagement";
    }
    ∷ record {
      path = lit "/admin/access-control";
      guard = layout_for (system_admin ∷ []);
      component = lit "RBACManagement";
    }
    ∷ record {
      path = lit "/admin/config";
      guard = layout_for (system_admin ∷ []);
      component = lit "SystemConfiguration";
    }
    ∷ record {
      path = lit "/admin/certificates";
      guard = layout_for (system_admin ∷ []);
      component = lit "CertificateManagement";
    }
    ∷ record {
      path = lit "/admin/cryptography";
      guard = layout_for (system_admin ∷ []);
      component = lit "SystemAdminAuthorityHub";
    }
    ∷ record {
      path = lit "/admin/certificates";
      guard = layout_for (system_admin ∷ []);
      component = lit "SystemAdminCertificateStudio";
    }
    ∷ record {
      path = lit "/admin/security-policies";
      guard = layout_for (system_admin ∷ []);
      component = lit "SystemAdminSecurityOps";
    }
    ∷ record {
      path = lit "/admin/incidents";
      guard = layout_for (system_admin ∷ []);
      component = lit "IncidentResponse";
    }
    ∷ record {
      path = lit "/admin/monitoring";
      guard = layout_for (system_admin ∷ []);
      component = lit "SystemMonitoring";
    }
    ∷ record {
      path = lit "/admin/audit";
      guard = layout_for (system_admin ∷ []);
      component = lit "SystemAdminAuditNetwork";
    }
    ∷ record {
      path = lit "/admin/backup";
      guard = layout_for (system_admin ∷ []);
      component = lit "BackupRecovery";
    }
    ∷ record {
      path = lit "/admin/monitoring";
      guard = layout_for (system_admin ∷ []);
      component = lit "System Monitoring";
    }
    ∷ []
