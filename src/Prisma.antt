-- ===== src/Prisma.antt =====
-- The data layer (prisma/schema.prisma, src/prisma): the rows of the schema, the interface of the
-- Prisma client that the services call, and a table in memory that meets its laws.
pub mod Schema
pub mod Table
pub mod Memory
pub mod Client
pub mod Scoped
