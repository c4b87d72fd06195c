-- ===== src/Examples.antt =====
-- Runs of the models at concrete inputs, by the part of the program.
mod Data
mod Routing
mod Relaying
mod Mail
mod Web
mod Forwarding
mod Serving
mod Interleaving
mod Dialing
mod Confining
mod Starting
