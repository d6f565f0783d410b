-- ===== src/Models.antt =====
-- dploydb/models.py: the durable contracts. Identities (`op_…`, `release_…`, `backup_…`) and SHA-256
-- digests are the numbers that their fixed-width hexadecimal digits stand for, so Python's order of
-- the texts is the order of the numbers; times are numbers of microseconds in UTC. The character
-- patterns and length limits of the other texts are not modelled.
pub mod State
pub mod Manifest
pub mod Operation
pub mod Lock
