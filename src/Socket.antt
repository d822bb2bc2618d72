-- ===== src/Socket.antt =====
-- web/src/lib/websocket.ts: the class `OmniTunWS`, in two parts that share no field, the connection
-- with its timers and the handlers with the messages that they get; and the hook that keeps one
-- client, web/src/hooks/useWebSocket.ts.
pub mod Connection
pub mod Routing
pub mod Hook
mod Tests
