-- ===== src/Admin.antt =====
-- Pages of the administration, in admin/src/pages.
pub mod IpWhitelist
pub mod Roles
pub mod AuditLogs
pub mod Flags
pub mod Announcements
pub mod Discounts
pub mod Abuse
pub mod Retention
pub mod Pricing
pub mod Certificates
pub mod Reports
pub mod Directory
pub mod Dashboards
pub mod Invoices
pub mod Customers
