-- ===== src/Hbs.antt =====
-- modules/hbs: the rules, templates and plugins that the server hands to judge and to the agents.
pub mod Templates
pub mod Inherit
pub mod Hosts
pub mod Plugins
pub mod Agents
pub mod Expressions
mod Tests
