-- ===== src/Session.antt =====
-- src/session: the states of a connection, and the owners of the published routes.
pub mod StateMachine
pub mod PublishRoute
pub mod Connect
pub mod ControlMessages
mod Tests
