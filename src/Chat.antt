-- ===== src/Chat.antt =====
-- apps/chat-service, apps/gateway/src/chat and libs/rpc/src/chat-realtime: messages in rooms, stored
-- in Redis and emitted to the sockets of each pod.
pub mod Redis
pub mod Hash
pub mod Store
pub mod Gateway
mod Memory
mod Tests
