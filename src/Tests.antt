-- ===== src/Tests.antt =====
-- Runs of the model on concrete inputs, and the theorems at these inputs.
mod ACastRuns
mod ServiceRuns
mod VoteRuns
mod PartRuns
mod AbaRuns
mod SharingRuns
mod CoinRuns
mod NetworkRuns
mod SecretRuns
