-- ===== src/Tests.antt =====
-- The theorems at concrete inputs.
mod Data
mod Post
mod Client
mod Wire
mod Handshake
mod Output
mod Teardown
mod Server
mod Threads
mod Epoll
mod Survival
mod Transfer
mod Connection
mod Parts
