-- ===== src/Tests.antt =====
-- Concrete inputs: a small world for the services, a table of one sequence, and runs of the code on
-- them.
mod World
mod Services
mod Served
mod Codecs
mod Distant
mod Limits
mod Generators
mod Renewals
mod Script
mod Router
mod Start
mod Fresh
mod Again
mod Built
mod Measures
mod Exits
mod Readonly
mod Limited
