-- ===== src/Tests.antt =====
-- Runs of the definitions at concrete inputs.
mod Codec
mod Fsm
mod Pipes
mod Client
mod Sockets
mod Proxy
mod Files
mod Forwards
mod Netif
mod Session
mod Processes
mod Oneshot
