-- ===== src/Keycloak.antt =====
-- internal/keycloak/client.go: the Admin REST client. `Token` has the client and its cached token,
-- `Transport` the authenticated requests with their retry, `Admin` the operations on realms and
-- clients; the other children prove their laws.
pub mod Token
pub mod Transport
pub mod Admin
pub mod Server
