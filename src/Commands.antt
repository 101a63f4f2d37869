-- ===== src/Commands.antt =====
-- The commands of the terminal: src/core/commands/token_command.cpp is in Token,
-- src/core/commands/clients_command.cpp in Clients, src/core/CommandHandler.cpp in Handler.
pub mod Token
pub mod Clients
pub mod Handler
