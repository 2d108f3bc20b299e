-- ===== src/Auth.antt =====
-- src/auth/: the login, the documents of the portal, and the server for a SAML session.
pub mod Login
pub mod Portal
pub mod Saml
mod Tests
